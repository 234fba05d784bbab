-- ===== src/Db/Table.antt =====
-- Rows of one table with an id: the statements that the repositories send, as functions.
use pawspective_backend.Base.{
  ℤ, Bool, true, false, ◌||◌, Option, none, some, List, [], ◌∷◌, id_eq, if◌then◌else◌,
}

-- The primary key of a row.
pub record Keyed (Row : Type 0) : Type 0 where
  pub key : Row → ℤ

module _ {Row : Type 0} where
  -- SELECT … WHERE, and the rows that DELETE … WHERE leaves
  unfoldable pub where_rows : (Row → Bool) → List Row → List Row
  where_rows p [] = []
  where_rows p (r ∷ rows) = let rest = where_rows p rows in if p r then r ∷ rest else rest

  unfoldable pub reject : (Row → Bool) → List Row → List Row
  reject p [] = []
  reject p (r ∷ rows) = let rest = reject p rows in if p r then rest else r ∷ rest

  -- UPDATE … SET … WHERE
  unfoldable pub update_where : (Row → Bool) → (Row → Row) → List Row → List Row
  update_where p f [] = []
  update_where p f (r ∷ rows) =
      let rest = update_where p f rows in if p r then f r ∷ rest else r ∷ rest

  -- The first row of a result, `std::nullopt` of an empty one.
  unfoldable pub first_row : (Row → Bool) → List Row → Option Row
  first_row p [] = none
  first_row p (r ∷ rows) = if p r then some r else first_row p rows

  unfoldable pub exists_row : (Row → Bool) → List Row → Bool
  exists_row p [] = false
  exists_row p (r ∷ rows) = p r || exists_row p rows

module _ {Row : Type 0} ⦃k : Keyed Row⦄ where
  abbrev pub has_key : ℤ → Row → Bool
  has_key i r = id_eq (k.key r) i

  abbrev pub find : ℤ → List Row → Option Row
  find i rows = first_row (has_key i) rows

  -- A reference to a row of this table is met.
  abbrev pub has : List Row → ℤ → Bool
  has rows i = exists_row (has_key i) rows

  abbrev pub has_opt : List Row → Option ℤ → Bool
  has_opt rows none = true
  has_opt rows (some i) = has rows i
