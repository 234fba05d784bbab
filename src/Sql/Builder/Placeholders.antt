-- ===== src/Sql/Builder/Placeholders.antt =====
-- The placeholders of a built clause are `$1` to `$n`, in order, for the n bound values.
use pawspective_backend.Base.{
  ℕ, zero, suc, ◌+◌, ◌≡◌, refl, sym, ap, ◌∙◌, Option, none, some, List, [], ◌∷◌, ◌++◌, map, arith,
  length, ℤ, String,
}
use mathlib.Core.List.{append-nil, append_assoc}
use pawspective_backend.Errors.{ok, >>=-eq-ok}
use pawspective_backend.Sql.Builder.{
  Op, ilike, Value, number, Condition, SortSpec, FieldWhitelist, QueryWhitelist, QueryFilter, Piece,
  sql, placeholder, QueryClause, get_column_name, condition_pieces, separator, where_loop,
  order_loop, page_part, where_part, order_part, build_query_clause,
}

abbrev pub placeholders : List Piece → List ℕ
placeholders [] = []
placeholders (sql s ∷ pieces) = placeholders pieces
placeholders (placeholder n ∷ pieces) = n ∷ placeholders pieces

-- k + 1, k + 2, …, k + n
abbrev pub numbered : ℕ → ℕ → List ℕ
numbered k zero = []
numbered k (suc n) = (k + 1) ∷ numbered (k + 1) n

placeholders-append : (p q : List Piece) → placeholders (p ++ q) ≡ placeholders p ++ placeholders q
placeholders-append [] q = refl
placeholders-append (sql s ∷ p) q = placeholders-append p q
placeholders-append (placeholder n ∷ p) q = ap (λ (l : List ℕ). n ∷ l) (placeholders-append p q)

numbered_snoc : (k n : ℕ) → numbered k n ++ (k + n + 1) ∷ [] ≡ numbered k (suc n)
numbered_snoc k zero = ground arith
numbered_snoc k (suc n) =
    let shift : k + suc n + 1 ≡ k + 1 + n + 1 = omega arith in
    rw shift (ap (λ (l : List ℕ). (k + 1) ∷ l) (numbered_snoc (k + 1) n))

length-snoc {ℓ} : {A : Type ℓ} (xs : List A) (x : A) → length (xs ++ x ∷ []) ≡ suc (length xs)
length-snoc [] x = refl
length-snoc (y ∷ xs) x = ap suc (length-snoc xs x)

placeholders-separator :
    {A : Type 0} (rest : List A) (mark : String) → placeholders (separator rest mark) ≡ []
placeholders-separator [] mark = refl
placeholders-separator (a ∷ rest) mark = refl

placeholders-condition_pieces :
    (op : Op) (column : String) (n : ℕ) (pieces : List Piece)
    → condition_pieces op column n ≡ ok pieces
    → placeholders pieces ≡ n ∷ []
unfolding condition_pieces
placeholders-condition_pieces ilike column n pieces h = ground arith
placeholders-condition_pieces _ column n pieces h = ground arith

-- The state that the loops keep: as many placeholders as values, numbered from 1.
abbrev pub IsNumbered : QueryClause → Type 0
IsNumbered c = placeholders c.query ≡ numbered 0 (length c.parameters)

-- One more value with its placeholder keeps the numbering.
IsNumbered-push :
    (query pieces : List Piece) (params : List Value) (v : Value)
    → placeholders query ≡ numbered 0 (length params)
    → placeholders pieces ≡ (length params + 1) ∷ []
    → placeholders (query ++ pieces) ≡ numbered 0 (length (params ++ v ∷ []))
IsNumbered-push query pieces params v h k =
    rw (placeholders-append query pieces, h, k, length-snoc params v)
      (let zero_add : 0 + length params + 1 ≡ length params + 1 = omega arith in
        rw (← zero_add) (numbered_snoc 0 (length params)))

abbrev pub binders : List Condition → List Value
binders conditions = map (λ (c : Condition). c.binder) conditions

-- What the loop over the conditions returns, from any numbered state.
where_loop_lem :
    (whitelist : FieldWhitelist) (conditions : List Condition) (query : List Piece)
    (params : List Value) (clause : QueryClause)
    → placeholders query ≡ numbered 0 (length params)
    → where_loop whitelist conditions query params ≡ ok clause
    → IsNumbered clause × (clause.parameters ≡ params ++ binders conditions)
unfolding where_loop
where_loop_lem whitelist [] query params clause h e =
    let same : record { query = query; parameters = params } ≡ clause = cc in
    rw (← same) (h, sym (append-nil params))
where_loop_lem whitelist (cond ∷ conditions) query params clause h e =
    let (column, found, e1) = >>=-eq-ok (get_column_name whitelist cond.column) _ e in
    let (pieces, written, e2) =
      >>=-eq-ok (condition_pieces cond.op column (length params + 1)) _ e1 in
    let one : placeholders (pieces ++ separator conditions " AND ") ≡ (length params + 1) ∷ [] =
      rw (
        placeholders-append pieces,
        placeholders-separator conditions " AND ",
        placeholders-condition_pieces cond.op column _ pieces written,
      ) in
    let (numbers, values) =
      where_loop_lem whitelist conditions _ _ clause
        (IsNumbered-push query (pieces ++ separator conditions " AND ") params cond.binder h one)
        e2 in
    (numbers, values ∙ append_assoc params (cond.binder ∷ []) (binders conditions))

pub where_part_lem :
    (whitelist : FieldWhitelist) (conditions : List Condition) (clause : QueryClause)
    → where_part whitelist conditions ≡ ok clause
    → IsNumbered clause × (clause.parameters ≡ binders conditions)
unfolding where_part
where_part_lem whitelist [] clause e =
    let same : record { query = []; parameters = [] } ≡ clause = cc in rw (← same) (refl, refl)
where_part_lem whitelist (cond ∷ conditions) clause e =
    where_loop_lem whitelist (cond ∷ conditions) (sql " WHERE " ∷ []) [] clause refl e

placeholders-order_loop :
    (whitelist : FieldWhitelist) (specs : List SortSpec) (query result : List Piece)
    → order_loop whitelist specs query ≡ ok result
    → placeholders result ≡ placeholders query
unfolding order_loop
placeholders-order_loop whitelist [] query result e = let same : query ≡ result = cc in rw same
placeholders-order_loop whitelist (spec ∷ specs) query result e =
    let (column, found, e1) = >>=-eq-ok (get_column_name whitelist spec.column) _ e in
    placeholders-order_loop whitelist specs _ result e1
    ∙ placeholders-append query _
    ∙ ap (λ (l : List ℕ). placeholders query ++ l) (placeholders-separator specs ", ")
    ∙ append-nil (placeholders query)

placeholders-order_part :
    (whitelist : FieldWhitelist) (specs : List SortSpec) (query result : List Piece)
    → order_part whitelist specs query ≡ ok result
    → placeholders result ≡ placeholders query
unfolding order_part
placeholders-order_part whitelist [] query result e = let same : query ≡ result = cc in rw same
placeholders-order_part whitelist (spec ∷ specs) query result e =
    placeholders-order_loop whitelist (spec ∷ specs) _ result e
    ∙ placeholders-append query _
    ∙ append-nil (placeholders query)

-- The value that a page bound adds.
abbrev pub bound : Option ℤ → List Value
bound none = []
bound (some n) = number n ∷ []

page_part_lem :
    (keyword : String) (n : Option ℤ) (clause : QueryClause)
    → IsNumbered clause
    → IsNumbered (page_part keyword n clause)
      × ((page_part keyword n clause).parameters ≡ clause.parameters ++ bound n)
unfolding page_part
page_part_lem keyword none clause h = (h, sym (append-nil clause.parameters))
page_part_lem keyword (some n) clause h =
    (IsNumbered-push clause.query _ clause.parameters (number n) h refl, refl)

-- Whenever a clause is built, its placeholders are `$1`, …, `$n` in the order of the text, n is
-- the number of its parameters, and the parameters are the values of the conditions in their
-- order, then the limit, then the offset, where these are set.
pub build_query_clause-placeholders :
    (filter : QueryFilter) (whitelist : QueryWhitelist) (clause : QueryClause)
    → build_query_clause filter whitelist ≡ ok clause
    → (placeholders clause.query ≡ numbered 0 (length clause.parameters))
      × (clause.parameters
          ≡ (binders filter.conditions ++ bound filter.page_spec.limit)
            ++ bound filter.page_spec.offset)
unfolding build_query_clause
build_query_clause-placeholders filter whitelist clause e =
    let (written, e0, e1) = >>=-eq-ok (where_part whitelist.filter_fields filter.conditions) _ e in
    let (query, e2, e3) =
      >>=-eq-ok (order_part whitelist.sort_fields filter.sort_specs written.query) _ e1 in
    let (numbers, values) = where_part_lem whitelist.filter_fields filter.conditions written e0 in
    let ordered : QueryClause = record { query = query; parameters = written.parameters } in
    let kept =
      placeholders-order_part whitelist.sort_fields filter.sort_specs written.query query e2 in
    let (numbers1, values1) =
      page_part_lem " LIMIT " filter.page_spec.limit ordered (kept ∙ numbers) in
    let limited = page_part " LIMIT " filter.page_spec.limit ordered in
    let (numbers2, values2) = page_part_lem " OFFSET " filter.page_spec.offset limited numbers1 in
    let same : page_part " OFFSET " filter.page_spec.offset limited ≡ clause = cc in
    rw (← same) (
      numbers2,
      values2
          ∙ ap (λ (l : List Value). l ++ bound filter.page_spec.offset)
              (values1 ∙ ap (λ (l : List Value). l ++ bound filter.page_spec.limit) values),
    )
