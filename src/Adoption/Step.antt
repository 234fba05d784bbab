-- ===== src/Adoption/Step.antt =====
-- An atomic step: it either throws and leaves the state as it is, or replaces the database.
use pawspective_backend.Base.{ℤ, ◌≡◌, refl, Bool, true, some, List, [], ◌∷◌, Bool-cases, inl, inr}
use pawspective_backend.Errors.{Result, ok, err}
use pawspective_backend.Db.Table.{find, first_row, exists_row, has}
use pawspective_backend.Db.Tables.{Db, World, Breed-keyed}
use pawspective_backend.Db.Table.{Keyed, has_key}

abbrev pub step : World → Result Db → Result (Unit {0}) × World
step w (err e) = (err e, w)
step w (ok db) = (ok tt, record w { db = db })

-- A row that is there can be found.
pub find-has :
    {Row : Type 0} ⦃k : Keyed Row⦄ (rows : List Row) (i : ℤ)
    → has rows i ≡ true
    → (r : Row) × (find i rows ≡ some r)
unfolding exists_row first_row
find-has [] i h = cc
find-has (r ∷ rows) i h = elim (Bool-cases (has_key i r)) [
  | inl hit ↦ (r, rw hit refl)
  | inr miss ↦ let (s, found) = find-has rows i (rw miss at h) in (s, rw miss found)
]

pub has-find :
    {Row : Type 0} (p : Row → Bool) (rows : List Row) (r : Row)
    → first_row p rows ≡ some r
    → exists_row p rows ≡ true
unfolding exists_row first_row
has-find p [] r e = cc
has-find p (x ∷ rows) r e = elim (Bool-cases (p x)) [
  | inl hit ↦ rw hit refl
  | inr miss ↦ rw miss (has-find p rows r (rw miss at e))
]
