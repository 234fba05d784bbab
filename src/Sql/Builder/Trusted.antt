-- ===== src/Sql/Builder/Trusted.antt =====
-- The whitelist is the only source of the column names in a built clause.
use pawspective_backend.Base.{
  ℕ, ℤ, ◌+◌, ◌≡◌, refl, inl, inr, Bool, true, ◌||◌, Option, none, some, List, [], ◌∷◌, ◌++◌, arith,
  length, any, All, All-append, String, ◌==◌, text_Eq, Bool-cases,
}
use mathlib.Core.Path.{subst}
use pawspective_backend.Errors.{Result, ok, err, >>=-eq-ok}
use pawspective_backend.Sql.Builder.{
  Op, equal, not_equal, greater, less, greater_or_equal, less_or_equal, ilike, Value, Condition,
  SortSpec, asc, desc, SortOrder, QueryWhitelist, QueryFilter, Piece, sql, placeholder, QueryClause,
  condition_pieces, separator, where_loop, order_loop, page_part, where_part, order_part,
  order_to_sql, build_query_clause,
}
use pawspective_backend.Sql.Builder.Whitelist.{
  listed, is_column, get_column_name-listed, get_column_name_unlisted, condition_pieces_total,
}

-- The texts that the builder itself writes.
abbrev pub keywords : List String
keywords =
    " WHERE " ∷ " AND " ∷ " ORDER BY " ∷ ", " ∷ " LIMIT " ∷ " OFFSET " ∷ " " ∷ "=" ∷ "!=" ∷ ">"
    ∷ "<" ∷ ">=" ∷ "<=" ∷ "ASC" ∷ "DESC" ∷ " ILIKE '%' || " ∷ " || '%' ESCAPE '\\'" ∷ " = ANY("
    ∷ ")" ∷ []

pub is_trusted : QueryWhitelist → Piece → Bool
is_trusted w (placeholder n) = true
is_trusted w (sql s) =
    any (λ (k : String). k == s) keywords
    || (is_column w.filter_fields s || is_column w.sort_fields s)

or-true : (a b : Bool) → (a || (true || b)) ≡ true
or-true a b = ground arith

or-true-right : (a b : Bool) → (a || (b || true)) ≡ true
or-true-right a b = ground arith

order_to_sql-IsTrusted :
    (w : QueryWhitelist) (o : SortOrder) → is_trusted w (sql (order_to_sql o)) ≡ true
unfolding is_trusted
order_to_sql-IsTrusted w asc = refl
order_to_sql-IsTrusted w desc = refl

module _ (w : QueryWhitelist) where
  abbrev IsTrusted : Piece → Type 0
  IsTrusted p = is_trusted w p ≡ true

  column-IsTrusted :
      (column : String) → is_column w.filter_fields column ≡ true → IsTrusted (sql column)
  unfolding is_trusted
  column-IsTrusted column h = rw h (or-true _ (is_column w.sort_fields column))

  sort_column-IsTrusted :
      (column : String) → is_column w.sort_fields column ≡ true → IsTrusted (sql column)
  unfolding is_trusted
  sort_column-IsTrusted column h = rw h (or-true-right _ _)

  comparison-IsTrusted :
      (column symbol : String) (n : ℕ) (pieces : List Piece)
      → is_column w.filter_fields column ≡ true
      → IsTrusted (sql symbol)
      → ok (sql column ∷ sql " " ∷ sql symbol ∷ sql " " ∷ placeholder n ∷ []) ≡ ok pieces
      → All IsTrusted pieces
  unfolding is_trusted
  comparison-IsTrusted column symbol n pieces h t e =
      let same : sql column ∷ sql " " ∷ sql symbol ∷ sql " " ∷ placeholder n ∷ [] ≡ pieces = cc in
      rw (← same) (column-IsTrusted column h, (refl, (t, (refl, (refl, tt)))))

  condition_pieces-IsTrusted :
      (op : Op) (column : String) (n : ℕ) (pieces : List Piece)
      → is_column w.filter_fields column ≡ true
      → condition_pieces op column n ≡ ok pieces
      → All IsTrusted pieces
  unfolding condition_pieces is_trusted
  condition_pieces-IsTrusted ilike column n pieces h e =
      let same : sql column ∷ sql " ILIKE '%' || " ∷ placeholder n ∷ sql " || '%' ESCAPE '\\'" ∷ []
          ≡ pieces =
        cc in
      rw (← same) (column-IsTrusted column h, (refl, (refl, (refl, tt))))
  condition_pieces-IsTrusted Op.any column n pieces h e =
      let same : sql column ∷ sql " = ANY(" ∷ placeholder n ∷ sql ")" ∷ [] ≡ pieces = cc in
      rw (← same) (column-IsTrusted column h, (refl, (refl, (refl, tt))))
  condition_pieces-IsTrusted equal column n pieces h e =
      comparison-IsTrusted column "=" n pieces h refl e
  condition_pieces-IsTrusted not_equal column n pieces h e =
      comparison-IsTrusted column "!=" n pieces h refl e
  condition_pieces-IsTrusted greater column n pieces h e =
      comparison-IsTrusted column ">" n pieces h refl e
  condition_pieces-IsTrusted less column n pieces h e =
      comparison-IsTrusted column "<" n pieces h refl e
  condition_pieces-IsTrusted greater_or_equal column n pieces h e =
      comparison-IsTrusted column ">=" n pieces h refl e
  condition_pieces-IsTrusted less_or_equal column n pieces h e =
      comparison-IsTrusted column "<=" n pieces h refl e

  separator-IsTrusted :
      {A : Type 0} (rest : List A) (mark : String)
      → IsTrusted (sql mark)
      → All IsTrusted (separator rest mark)
  separator-IsTrusted [] mark h = tt
  separator-IsTrusted (a ∷ rest) mark h = (h, tt)

  abbrev AllTrusted : Result QueryClause → Type 0
  AllTrusted (ok clause) = All IsTrusted clause.query
  AllTrusted (err e) = Unit

  abbrev AllTrustedPieces : Result (List Piece) → Type 0
  AllTrustedPieces (ok pieces) = All IsTrusted pieces
  AllTrustedPieces (err e) = Unit

  where_loop-IsTrusted :
      (conditions : List Condition) (query : List Piece) (params : List Value)
      → All IsTrusted query
      → AllTrusted (where_loop w.filter_fields conditions query params)
  unfolding where_loop
  where_loop-IsTrusted [] query params h = h
  where_loop-IsTrusted (cond ∷ conditions) query params h =
      elim (Bool-cases (listed w.filter_fields cond.column)) [
        | inl known ↦
            let (column, found, c) = get_column_name-listed w.filter_fields cond.column known in
            let (pieces, written) = condition_pieces_total cond.op column (length params + 1) in
            rw (found, written)
              (where_loop-IsTrusted conditions _ _ (
                All-append IsTrusted query _ h (
                  All-append IsTrusted pieces _
                    (condition_pieces-IsTrusted cond.op column _ pieces c written)
                    (separator-IsTrusted conditions " AND " (unfold is_trusted in refl)))))
        | inr unknown ↦ rw (get_column_name_unlisted w.filter_fields cond.column unknown) tt
      ]

  order_loop-IsTrusted :
      (specs : List SortSpec) (query : List Piece)
      → All IsTrusted query
      → AllTrustedPieces (order_loop w.sort_fields specs query)
  unfolding order_loop
  order_loop-IsTrusted [] query h = h
  order_loop-IsTrusted (spec ∷ specs) query h =
      elim (Bool-cases (listed w.sort_fields spec.column)) [
        | inl known ↦
            let (column, found, c) = get_column_name-listed w.sort_fields spec.column known in
            rw found (
              order_loop-IsTrusted specs _ (
                All-append IsTrusted query _ h (
                  sort_column-IsTrusted column c,
                  (
                    unfold is_trusted in refl,
                    (
                      order_to_sql-IsTrusted w spec.order,
                      separator-IsTrusted specs ", " (unfold is_trusted in refl),
                    ),
                  ),
                )))
        | inr unknown ↦ rw (get_column_name_unlisted w.sort_fields spec.column unknown) tt
      ]

  where_part-IsTrusted :
      (conditions : List Condition) → AllTrusted (where_part w.filter_fields conditions)
  unfolding where_part
  where_part-IsTrusted [] = tt
  where_part-IsTrusted (cond ∷ conditions) =
      where_loop-IsTrusted (cond ∷ conditions) (sql " WHERE " ∷ []) []
        (unfold is_trusted in (refl, tt))

  order_part-IsTrusted :
      (specs : List SortSpec) (query : List Piece)
      → All IsTrusted query
      → AllTrustedPieces (order_part w.sort_fields specs query)
  unfolding order_part
  order_part-IsTrusted [] query h = h
  order_part-IsTrusted (spec ∷ specs) query h =
      order_loop-IsTrusted (spec ∷ specs) (query ++ sql " ORDER BY " ∷ [])
        (All-append IsTrusted query _ h (unfold is_trusted in (refl, tt)))

  page_part-IsTrusted :
      (keyword : String) (n : Option ℤ) (clause : QueryClause)
      → IsTrusted (sql keyword)
      → All IsTrusted clause.query
      → All IsTrusted (page_part keyword n clause).query
  unfolding page_part is_trusted
  page_part-IsTrusted keyword none clause k h = h
  page_part-IsTrusted keyword (some n) clause k h =
      All-append IsTrusted clause.query _ h (k, (refl, tt))

-- Whatever the filter holds, every text of a built clause is one of the builder's own keywords or
-- a column of the whitelist: no field name and no value of the filter gets into the SQL text.
pub build_query_clause-IsTrusted :
    (filter : QueryFilter) (whitelist : QueryWhitelist) (clause : QueryClause)
    → build_query_clause filter whitelist ≡ ok clause
    → All (λ (p : Piece). is_trusted whitelist p ≡ true) clause.query
unfolding build_query_clause
build_query_clause-IsTrusted filter whitelist clause e =
    let (written, e0, e1) = >>=-eq-ok (where_part whitelist.filter_fields filter.conditions) _ e in
    let (query, e2, e3) =
      >>=-eq-ok (order_part whitelist.sort_fields filter.sort_specs written.query) _ e1 in
    let h0 : All (λ (p : Piece). is_trusted whitelist p ≡ true) written.query =
      subst (AllTrusted whitelist) e0 (where_part-IsTrusted whitelist filter.conditions) in
    let h1 : All (λ (p : Piece). is_trusted whitelist p ≡ true) query =
      subst (AllTrustedPieces whitelist) e2
        (order_part-IsTrusted whitelist filter.sort_specs written.query h0) in
    subst (AllTrusted whitelist) e3 (
      page_part-IsTrusted whitelist " OFFSET " filter.page_spec.offset _ (unfold is_trusted in refl)
        (page_part-IsTrusted whitelist " LIMIT " filter.page_spec.limit _
          (unfold is_trusted in refl) h1))
