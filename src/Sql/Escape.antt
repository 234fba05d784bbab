-- ===== src/Sql/Escape.antt =====
-- `EscapeForLike` of utils/src/sql_builder.cpp over the bytes of a text, and the pattern matching
-- of PostgreSQL's `ILIKE … ESCAPE '\'`, for which the escaped text is meant.
pub mod Literal
use pawspective_backend.Base.{
  ℕ, suc, Bool, true, false, ◌&&◌, ◌||◌, List, [], ◌∷◌, ◌++◌, eqb, is_empty, if◌then◌else◌,
}

abbrev percent : ℕ
percent = 37

abbrev underscore : ℕ
underscore = 95

abbrev backslash : ℕ
backslash = 92

pub is_special : ℕ → Bool
is_special c = eqb c percent || eqb c underscore || eqb c backslash

-- std::count_if
pub escape_count : List ℕ → ℕ
escape_count [] = 0
escape_count (c ∷ input) = let rest = escape_count input in if is_special c then suc rest else rest

-- The loop that fills `escaped`.
pub escape_loop : List ℕ → List ℕ
escape_loop [] = []
escape_loop (c ∷ input) =
    let rest = escape_loop input in if is_special c then backslash ∷ c ∷ rest else c ∷ rest

unfoldable pub escape_for_like : List ℕ → List ℕ
unfolding is_special escape_count escape_loop
escape_for_like input = if eqb (escape_count input) 0 then input else escape_loop input

-- `p` holds of some end of the text.
pub some_suffix : (List ℕ → Bool) → List ℕ → Bool
some_suffix p [] = p []
some_suffix p (c ∷ text) = p (c ∷ text) || some_suffix p text

-- The first byte passes the test, and the rest of the text passes `rest`.
pub next_is : (ℕ → Bool) → (List ℕ → Bool) → List ℕ → Bool
next_is test rest [] = false
next_is test rest (c ∷ text) = test c && rest text

-- `same` is the comparison of single bytes that ILIKE makes under the database's locale.
module _ (same : ℕ → ℕ → Bool) where
  -- `escaped` says that the byte before was the escape character.
  pub like : Bool → List ℕ → List ℕ → Bool
  like true [] text = false
  like false [] text = is_empty text
  like true (c ∷ pattern_rest) text = next_is (same c) (like false pattern_rest) text
  like false (c ∷ pattern_rest) text =
      let anything = some_suffix (like false pattern_rest) text in
      let one = next_is (λ _. true) (like false pattern_rest) text in
      let escaped = like true pattern_rest text in
      let literal = next_is (same c) (like false pattern_rest) text in
      if eqb c percent
      then anything
      else if eqb c underscore
      then one
      else if eqb c backslash
      then escaped
      else literal

  -- The value of `column ILIKE '%' || $n || '%' ESCAPE '\'`.
  unfoldable pub ilike_contains : List ℕ → List ℕ → Bool
  unfolding like some_suffix next_is
  ilike_contains parameter text = like false (percent ∷ (parameter ++ percent ∷ [])) text

  -- The specification: the text holds `part` literally, byte by byte.
  pub starts_with : List ℕ → List ℕ → Bool
  starts_with [] text = true
  starts_with (c ∷ part) text = next_is (same c) (starts_with part) text

  pub contains : List ℕ → List ℕ → Bool
  contains part text = some_suffix (starts_with part) text
