-- ===== src/Db/References.antt =====
-- The references of a foreign key.
use pawspective_backend.Base.{ℤ, ◌≡◌, true, Option, List, All}
use pawspective_backend.Db.Table.{Keyed, has, has_opt}

module _ {Row Target : Type 0} ⦃k : Keyed Target⦄ where
  -- Every reference `f` of the rows is met in the target table.
  abbrev pub Refs : List Target → (Row → ℤ) → List Row → Type 0
  Refs target f rows = All (λ r. has target (f r) ≡ true) rows

  abbrev pub OptRefs : List Target → (Row → Option ℤ) → List Row → Type 0
  OptRefs target f rows = All (λ r. has_opt target (f r) ≡ true) rows
