-- ===== src/Pagination/Cover.antt =====
-- The pages of PostRepository::GetByOrganizationIdPaginated, and what the services call
-- `total_pages`.
use pawspective_backend.Base.{
  ℕ, zero, suc, ◌+◌, ◌*◌, ◌≤◌, ◌<◌, ℤ, pos, ◌≡◌, refl, sym, ◌∙◌, arith, ltb, Bool, true, false, All,
  ◌==◌, id_Eq, List, [], ◌∷◌, ◌++◌, length, take, drop, Bool-cases, inl, inr,
}
use mathlib.Core.Path.{ap, subst}
use mathlib.Core.List.{Permᴰ}
use native.Mathlib.Numerals.{unary_clauses}
use pawspective_backend.Errors.{Result, ok, err}
use pawspective_backend.Models.Records.{Post}
use pawspective_backend.Db.Table.{where_rows}
use pawspective_backend.Db.Tables.{World}
use pawspective_backend.Exec.{◌>>=◌}
use pawspective_backend.Repositories.Paging.{total_pages, order_by, insert_row}
use pawspective_backend.Repositories.Posts
use pawspective_backend.Services.Catalogue.{page_size}

module _ {A : Type 0} where
  take-more : (a b : ℕ) (rows : List A) → take a rows ++ take b (drop a rows) ≡ take (a + b) rows
  take-more zero b rows = ap (λ n. take n rows) (omega arith)
  take-more (suc a) zero [] = simp unary_clauses refl
  take-more (suc a) (suc b) [] = simp unary_clauses refl
  take-more (suc a) b (x ∷ rows) =
      let grown : suc (a + b) ≡ suc a + b = omega arith in
      ap (λ ys. x ∷ ys) (take-more a b rows) ∙ ap (λ n. take n (x ∷ rows)) grown

  take-all : (n : ℕ) (rows : List A) → length rows ≤ n → take n rows ≡ rows
  take-all zero [] h = refl
  take-all (suc n) [] h = refl
  take-all zero (x ∷ rows) h = ground arith
  take-all (suc n) (x ∷ rows) h = ap (λ ys. x ∷ ys) (take-all n rows (omega arith))

module _ {A : Type 0} (before : A → A → Bool) where
  length-insert_row :
      (x : A) (rows : List A) → length (insert_row before x rows) ≡ suc (length rows)
  unfolding insert_row
  length-insert_row x [] = refl
  length-insert_row x (y ∷ rows) = elim (Bool-cases (before x y)) [
    | inl first ↦ rw first refl
    | inr later ↦ rw later (ap (λ n. suc n) (length-insert_row x rows))
  ]

  length-order_by : (rows : List A) → length (order_by before rows) ≡ length rows
  unfolding order_by
  length-order_by [] = refl
  length-order_by (x ∷ rows) =
      length-insert_row x (order_by before rows) ∙ ap (λ n. suc n) (length-order_by rows)

total_pages-enough : (count : ℕ) → count ≤ total_pages count page_size * page_size
unfolding total_pages
total_pages-enough count = ground arith

-- The rows of an answer.
abbrev items_of : {A : Type 0} → Result (List A × ℕ) → List A
items_of (ok (rows, count)) = rows
items_of (err e) = []

abbrev count_of : {A : Type 0} → Result (List A × ℕ) → ℕ
count_of (ok (rows, count)) = count
count_of (err e) = 0

-- A post that is strictly newer than another one is inserted before or after it.
insert_row-swap :
    (x y : Post) (rows : List Post)
    → y.created_at < x.created_at
    → insert_row Posts.newer x (insert_row Posts.newer y rows)
      ≡ insert_row Posts.newer y (insert_row Posts.newer x rows)
unfolding insert_row
insert_row-swap x y [] h =
    let first : Posts.newer x y ≡ true = ground arith in
    let second : Posts.newer y x ≡ false = ground arith in rw (first, second) refl
insert_row-swap x y (z ∷ rows) h =
    let first : Posts.newer x y ≡ true = ground arith in
    let second : Posts.newer y x ≡ false = ground arith in
    elim (Bool-cases (Posts.newer y z)) [
      | inl here ↦
          let above : Posts.newer x z ≡ true = ground (arith, here) in
          rw (here, above, first, second, here) refl
      | inr later ↦ elim (Bool-cases (Posts.newer x z)) [
        | inl above ↦ rw (later, above, second, later) refl
        | inr below ↦ rw (later, below, later) (ap (λ ys. z ∷ ys) (insert_row-swap x y rows h))
      ]
    ]

-- The time of a post tells which post it is.
abbrev pub IsNamed : (ℕ → Post) → Post → Type 0
IsNamed post_at p = post_at p.created_at ≡ p

insert_row-commutes :
    (post_at : ℕ → Post) (x y : Post) (rows : List Post)
    → IsNamed post_at x
    → IsNamed post_at y
    → insert_row Posts.newer x (insert_row Posts.newer y rows)
      ≡ insert_row Posts.newer y (insert_row Posts.newer x rows)
insert_row-commutes post_at x y rows hx hy = elim (Bool-cases (ltb y.created_at x.created_at)) [
  | inl less ↦ insert_row-swap x y rows (ground (arith, less))
  | inr more ↦ elim (Bool-cases (ltb x.created_at y.created_at)) [
    | inl less ↦ sym (insert_row-swap y x rows (ground (arith, less)))
    | inr equal ↦
        let same : y.created_at ≡ x.created_at = ground (arith, more, equal) in
        let e : y ≡ x = sym hy ∙ ap post_at same ∙ hx in
        ap (λ (z : Post). insert_row Posts.newer x (insert_row Posts.newer z rows)) e
        ∙ ap (λ (z : Post). insert_row Posts.newer z (insert_row Posts.newer x rows)) (sym e)
  ]
]

-- With such times, ORDER BY created_at DESC gives the same rows however the query meets them.
order_by-Perm :
    (post_at : ℕ → Post) (rows met : List Post)
    → Permᴰ rows met
    → All (IsNamed post_at) rows
    → All (IsNamed post_at) met × (order_by Posts.newer rows ≡ order_by Posts.newer met)
unfolding order_by
order_by-Perm post_at _ _ Permᴰ.nil h = (tt, refl)
order_by-Perm post_at _ _ (Permᴰ.cons {b = b} {l₁ = l} {l₂ = m} e d) (named, h) =
    let (rest, same) = order_by-Perm post_at l m d h in
    (
      (subst (IsNamed post_at) e named, rest),
      ap (λ (z : Post). insert_row Posts.newer z (order_by Posts.newer l)) e
          ∙ ap (insert_row Posts.newer b) same,
    )
order_by-Perm post_at _ _ (Permᴰ.swap {a = a} {b = b} {a' = c} {l = l} e f) (first, (second, h)) = (
  (subst (IsNamed post_at) f second, (subst (IsNamed post_at) e first, h)),
  insert_row-commutes post_at a b (order_by Posts.newer l) first second
      ∙ ap
          (λ (z : Post).
            insert_row Posts.newer z (insert_row Posts.newer a (order_by Posts.newer l)))
          f
      ∙ ap
          (λ (z : Post).
            insert_row Posts.newer c (insert_row Posts.newer z (order_by Posts.newer l)))
          e,
)
order_by-Perm post_at rows met (Permᴰ.trans {l₂ = middle} d e) h =
    let (named, same) = order_by-Perm post_at rows middle d h in
    let (rest, more) = order_by-Perm post_at middle met e named in (rest, same ∙ more)

-- The first `n` pages of the posts of an organization, one after the other, where the query of the
-- page n meets the posts in the order `arrange n`.
abbrev pub post_pages : (ℕ → List Post → List Post) → ℤ → ℕ → World → List Post
post_pages arrange org zero w = []
post_pages arrange org (suc n) w =
    post_pages arrange org n w
    ++ items_of
        (Posts.get_by_organization_id_paginated (arrange n) org (pos (suc n)) (pos page_size) w).0

-- The number of pages that the query of the first page announces.
abbrev pub announced : (ℕ → List Post → List Post) → ℤ → World → ℕ
announced arrange org w =
    total_pages
      (count_of
        (Posts.get_by_organization_id_paginated (arrange 0) org (pos 1) (pos page_size) w).0)
      page_size

abbrev pub posts_of : ℤ → World → List Post
posts_of org w = where_rows (λ (p : Post). p.organization_id == org) w.db.posts

post_pages-eq-take :
    (arrange : ℕ → List Post → List Post) (org : ℤ) (n : ℕ) (w : World)
    → ((k : ℕ)
        → order_by Posts.newer (arrange k (posts_of org w)) ≡ order_by Posts.newer (posts_of org w))
    → post_pages arrange org n w ≡ take (n * page_size) (order_by Posts.newer (posts_of org w))
unfolding Posts.get_by_organization_id_paginated ◌>>=◌
post_pages-eq-take arrange org zero w h = refl
post_pages-eq-take arrange org (suc n) w h =
    let rows = order_by Posts.newer (posts_of org w) in
    rw (post_pages-eq-take arrange org n w h, h n)
      (take-more (n * page_size) page_size rows ∙ ap (λ k. take k rows) (omega arith))

-- Where no two posts of an organization have the same time, the pages that the query of the first
-- page announces are, one after the other, the whole list of its posts in the order of the listing,
-- in whatever orders the queries of the pages meet the posts.
pub post_pages-announced :
    (arrange : ℕ → List Post → List Post) (post_at : ℕ → Post) (org : ℤ) (w : World)
    → ((n : ℕ) (rows : List Post) → Permᴰ rows (arrange n rows))
    → All (IsNamed post_at) (posts_of org w)
    → post_pages arrange org (announced arrange org w) w ≡ order_by Posts.newer (posts_of org w)
unfolding Posts.get_by_organization_id_paginated ◌>>=◌
post_pages-announced arrange post_at org w permutes named =
    let rows = posts_of org w in
    let pages = total_pages (length rows) page_size in
    post_pages-eq-take arrange org pages w
      (λ k. sym (order_by-Perm post_at rows (arrange k rows) (permutes k rows) named).1)
    ∙ take-all (pages * page_size) (order_by Posts.newer rows)
        (rw (length-order_by Posts.newer rows) (total_pages-enough (length rows)))
