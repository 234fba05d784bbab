-- ===== src/Sql/Escape/Literal.antt =====
-- A search text, once escaped, is matched literally.
use mathlib.Core.Path.{fun_ext}
use pawspective_backend.Base.{
  ℕ, Bool, true, false, ◌≡◌, refl, ap, sym, List, [], ◌∷◌, ◌++◌, arith, eqb, is_empty, Bool-cases,
  inl, inr,
}
use pawspective_backend.Sql.Escape.{
  percent, backslash, is_special, escape_count, escape_loop, escape_for_like, some_suffix, next_is,
  like, ilike_contains, starts_with, contains,
}

escape_loop-eq_of_none : (s : List ℕ) → escape_count s ≡ 0 → escape_loop s ≡ s
unfolding escape_count escape_loop
escape_loop-eq_of_none [] h = refl
escape_loop-eq_of_none (c ∷ s) h = ground (arith, escape_loop-eq_of_none s)

pub escape_for_like-eq-loop : (s : List ℕ) → escape_for_like s ≡ escape_loop s
unfolding escape_for_like
escape_for_like-eq-loop s = elim (Bool-cases (eqb (escape_count s) 0)) [
  | inl clean ↦ rw clean (sym (escape_loop-eq_of_none s (ground arith)))
  | inr dirty ↦ rw dirty
]

escape_loop-special :
    (c : ℕ) (s : List ℕ) → is_special c ≡ true → escape_loop (c ∷ s) ≡ backslash ∷ c ∷ escape_loop s
unfolding escape_loop
escape_loop-special c s h = rw h

escape_loop-plain :
    (c : ℕ) (s : List ℕ) → is_special c ≡ false → escape_loop (c ∷ s) ≡ c ∷ escape_loop s
unfolding escape_loop
escape_loop-plain c s h = rw h

module _ (same : ℕ → ℕ → Bool) where
  some_suffix-is_empty : (text : List ℕ) → some_suffix is_empty text ≡ true
  unfolding some_suffix
  some_suffix-is_empty [] = refl
  some_suffix-is_empty (c ∷ text) = some_suffix-is_empty text

  like-special :
      (c : ℕ) (p text : List ℕ)
      → like same false (backslash ∷ c ∷ p) text ≡ next_is (same c) (like same false p) text
  unfolding like
  like-special c p text = refl

  like-plain :
      (c : ℕ) (p text : List ℕ)
      → is_special c ≡ false
      → like same false (c ∷ p) text ≡ next_is (same c) (like same false p) text
  unfolding like is_special
  like-plain c p text h = ground arith

  starts_with-cons :
      (c : ℕ) (s text : List ℕ)
      → starts_with same (c ∷ s) text ≡ next_is (same c) (starts_with same s) text
  unfolding starts_with
  starts_with-cons c s text = refl

  like-escape_loop :
      (s text : List ℕ)
      → like same false (escape_loop s ++ percent ∷ []) text ≡ starts_with same s text
  like-escape_loop [] text = unfold escape_loop like starts_with in some_suffix-is_empty text
  like-escape_loop (c ∷ s) text =
      let ih : like same false (escape_loop s ++ percent ∷ []) ≡ starts_with same s =
        fun_ext (like-escape_loop s) in
      elim (Bool-cases (is_special c)) [
        | inl special ↦
            rw (escape_loop-special c s special, like-special c, ih)
              (sym (starts_with-cons c s text))
        | inr plain ↦
            rw (escape_loop-plain c s plain, like-plain c _ text plain, ih)
              (sym (starts_with-cons c s text))
      ]

  -- For every search text and every stored text, ILIKE with the escaped search text between two
  -- `%` holds exactly when the stored text contains the search text literally: no `%`, `_` or `\`
  -- of the search text acts as a wildcard.
  pub ilike_contains-escape_for_like :
      (s text : List ℕ) → ilike_contains same (escape_for_like s) text ≡ contains same s text
  ilike_contains-escape_for_like s text = rw escape_for_like-eq-loop (
      unfold ilike_contains contains in
      ap (λ (p : List ℕ → Bool). some_suffix p text) (fun_ext (like-escape_loop s)))
