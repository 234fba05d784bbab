-- ===== src/Db/Rows.antt =====
-- Laws of the statements on the rows of a table.
use pawspective_backend.Base.{
  ◌≡◌, refl, Bool, true, false, some, List, [], ◌∷◌, ◌++◌, arith, All, Bool-cases, inl, inr,
}
use pawspective_backend.Db.Table.{reject, update_where, first_row, exists_row}

module _ {Row : Type 0} where
  pub All-reject {κ} :
      (P : Row → Type κ) (p : Row → Bool) (rows : List Row) → All P rows → All P (reject p rows)
  unfolding reject
  All-reject P p [] h = tt
  All-reject P p (r ∷ rows) h = elim (Bool-cases (p r)) [
    | inl gone ↦ rw gone (All-reject P p rows h.1)
    | inr kept ↦ rw kept (h.0, All-reject P p rows h.1)
  ]

  -- What is left fails the test.
  pub All-reject_self : (p : Row → Bool) (rows : List Row) → All (λ r. p r ≡ false) (reject p rows)
  unfolding reject
  All-reject_self p [] = tt
  All-reject_self p (r ∷ rows) = elim (Bool-cases (p r)) [
    | inl gone ↦ rw gone (All-reject_self p rows)
    | inr kept ↦ rw kept (kept, All-reject_self p rows)
  ]

  pub exists_row-append :
      (p : Row → Bool) (rows : List Row) (r : Row)
      → exists_row p rows ≡ true
      → exists_row p (rows ++ r ∷ []) ≡ true
  unfolding exists_row
  exists_row-append p [] r h = cc
  exists_row-append p (x ∷ rows) r h = ground (arith, exists_row-append p rows r)

  pub exists_row-append_end :
      (p : Row → Bool) (rows : List Row) (r : Row)
      → p r ≡ true
      → exists_row p (rows ++ r ∷ []) ≡ true
  unfolding exists_row
  exists_row-append_end p [] r h = rw h refl
  exists_row-append_end p (x ∷ rows) r h = ground (arith, exists_row-append_end p rows r h)

  pub exists_row-update_where :
      (q p : Row → Bool) (f : Row → Row) (rows : List Row)
      → ((r : Row) → q (f r) ≡ q r)
      → exists_row q (update_where p f rows) ≡ exists_row q rows
  unfolding exists_row update_where
  exists_row-update_where q p f [] same = refl
  exists_row-update_where q p f (r ∷ rows) same =
      ground (arith, same r, exists_row-update_where q p f rows same)

  pub All-first_row {κ} :
      (P : Row → Type κ) (p : Row → Bool) (rows : List Row) (r : Row)
      → All P rows
      → first_row p rows ≡ some r
      → P r
  unfolding first_row
  All-first_row P p [] r h e = cc
  All-first_row P p (x ∷ rows) r h e = elim (Bool-cases (p x)) [
    | inl hit ↦
        let found : some x ≡ some r = rw hit at e in let same : x ≡ r = cc in rw (← same) h.0
    | inr miss ↦ All-first_row P p rows r h.1 (rw miss at e)
  ]

  pub first_row_sound :
      (p : Row → Bool) (rows : List Row) (r : Row) → first_row p rows ≡ some r → p r ≡ true
  unfolding first_row
  first_row_sound p [] r e = cc
  first_row_sound p (x ∷ rows) r e = ground (arith, first_row_sound p rows r)

  pub exists_row-eq_false :
      (p : Row → Bool) (rows : List Row) → All (λ r. p r ≡ false) rows → exists_row p rows ≡ false
  unfolding exists_row
  exists_row-eq_false p [] h = refl
  exists_row-eq_false p (r ∷ rows) h = ground (arith, exists_row-eq_false p rows h.1, h.0)
