-- ===== src/Exec.antt =====
-- Code that reads and writes the state and may throw. Every statement is committed by itself, so
-- what was written before an exception stays written, and the state comes back beside it.
use pawspective_backend.Base.{Bool, true, false, Option, none, some}
use pawspective_backend.Errors.{Exception, Result, ok, err}
use pawspective_backend.Db.Tables.{Db, World}

abbrev pub Exec : Type 0 → Type 0
Exec A = World → Result A × World

abbrev pub pure : {A : Type 0} → A → Exec A
pure a w = (ok a, w)

abbrev pub throw : {A : Type 0} → Exception → Exec A
throw e w = (err e, w)

-- A statement that reads.
abbrev pub reads : {A : Type 0} → (Db → A) → Exec A
reads f w = (ok (f w.db), w)

-- A statement that writes.
abbrev pub writes : (Db → Db) → Exec (Unit {0})
writes f w = (ok tt, record w { db = f w.db })

abbrev pub lift : {A : Type 0} → Result A → Exec A
lift r w = (r, w)

abbrev pub continue : {A B : Type 0} → Result A → (A → Exec B) → Exec B
continue (ok a) f w = f a w
continue (err e) f w = (err e, w)

infixl 5 ◌>>=◌ ◌>>◌
unfoldable pub ◌>>=◌ : {A B : Type 0} → Exec A → (A → Exec B) → Exec B
◌>>=◌ m f w = continue (m w).0 f (m w).1

abbrev pub ◌>>◌ : {A B : Type 0} → Exec A → Exec B → Exec B
m >> n = m >>= λ _. n

-- if (test) throw e;
unfoldable pub throw_if : Bool → Exception → Exec (Unit {0})
throw_if true e = throw e
throw_if false e = pure tt

-- if (!found) throw e; … *found
unfoldable pub or_throw : {A : Type 0} → Option A → Exception → Exec A
or_throw none e = throw e
or_throw (some a) e = pure a

-- try { m } catch (const caught&) { throw thrown; }
abbrev pub rethrown : {A : Type 0} → (Exception → Exception) → Result A → Result A
rethrown f (ok a) = ok a
rethrown f (err e) = err (f e)

unfoldable pub rethrow : {A : Type 0} → (Exception → Exception) → Exec A → Exec A
rethrow f m w = (rethrown f (m w).0, (m w).1)
