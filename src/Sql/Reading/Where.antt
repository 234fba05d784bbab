-- ===== src/Sql/Reading/Where.antt =====
-- The conditions of a built clause as they are read.
use pawspective_backend.Base.{
  ℕ, ◌+◌, String, ◌≡◌, refl, ap, ◌∙◌, List, [], ◌∷◌, ◌++◌, length, arith,
}
use mathlib.Core.List.{append_assoc}
use pawspective_backend.Errors.{Result, ok, err, >>=-eq-ok}
use pawspective_backend.Sql.Builder.{
  Op, equal, not_equal, greater, less, greater_or_equal, less_or_equal, ilike, any, Value,
  Condition, FieldWhitelist, Piece, sql, placeholder, QueryClause, get_column_name,
  condition_pieces, op_to_sql, where_loop, where_part,
}
use pawspective_backend.Sql.Reading.{
  Test, Mode, start, in_where, at_column, at_order, Reading, nothing_read, read, read-append,
}

abbrev pub column_of : Result String → String
column_of (ok column) = column
column_of (err e) = ""

-- The conditions in their order, the values at the places after the first `k`.
abbrev pub tests_of : FieldWhitelist → List Condition → ℕ → List Test
tests_of whitelist [] k = []
tests_of whitelist (c ∷ conditions) k =
    record { column = column_of (get_column_name whitelist c.column); op = c.op; place = k + 1 }
    ∷ tests_of whitelist conditions (k + 1)

abbrev pub where_read : Mode → List Test → Reading
where_read mode tests = record nothing_read { mode = mode; tests = tests }

read-condition_pieces :
    (op : Op) (column : String) (n : ℕ) (pieces : List Piece) (tests : List Test)
    → condition_pieces op column n ≡ ok pieces
    → read (where_read at_column tests) pieces
      ≡ where_read in_where (tests ++ record { column = column; op = op; place = n } ∷ [])
unfolding condition_pieces op_to_sql
read-condition_pieces ilike column n pieces tests h =
    let same : (sql column ∷ sql " ILIKE '%' || " ∷ placeholder n ∷ sql " || '%' ESCAPE '\\'" ∷ [])
        ≡ pieces =
      cc in
    rw (← same) refl
read-condition_pieces any column n pieces tests h =
    let same : (sql column ∷ sql " = ANY(" ∷ placeholder n ∷ sql ")" ∷ []) ≡ pieces = cc in
    rw (← same) refl
read-condition_pieces equal column n pieces tests h =
    let same : (sql column ∷ sql " " ∷ sql "=" ∷ sql " " ∷ placeholder n ∷ []) ≡ pieces = cc in
    rw (← same) refl
read-condition_pieces not_equal column n pieces tests h =
    let same : (sql column ∷ sql " " ∷ sql "!=" ∷ sql " " ∷ placeholder n ∷ []) ≡ pieces = cc in
    rw (← same) refl
read-condition_pieces greater column n pieces tests h =
    let same : (sql column ∷ sql " " ∷ sql ">" ∷ sql " " ∷ placeholder n ∷ []) ≡ pieces = cc in
    rw (← same) refl
read-condition_pieces less column n pieces tests h =
    let same : (sql column ∷ sql " " ∷ sql "<" ∷ sql " " ∷ placeholder n ∷ []) ≡ pieces = cc in
    rw (← same) refl
read-condition_pieces greater_or_equal column n pieces tests h =
    let same : (sql column ∷ sql " " ∷ sql ">=" ∷ sql " " ∷ placeholder n ∷ []) ≡ pieces = cc in
    rw (← same) refl
read-condition_pieces less_or_equal column n pieces tests h =
    let same : (sql column ∷ sql " " ∷ sql "<=" ∷ sql " " ∷ placeholder n ∷ []) ≡ pieces = cc in
    rw (← same) refl

pub length-push : (params : List Value) (v : Value) → length (params ++ v ∷ []) ≡ length params + 1
length-push [] v = refl
length-push (p ∷ params) v = ground (arith, length-push params v)

where_loop-reads :
    (whitelist : FieldWhitelist) (c : Condition) (conditions : List Condition) (query : List Piece)
    (params : List Value) (tests : List Test) (clause : QueryClause)
    → read nothing_read query ≡ where_read at_column tests
    → where_loop whitelist (c ∷ conditions) query params ≡ ok clause
    → read nothing_read clause.query
      ≡ where_read in_where (tests ++ tests_of whitelist (c ∷ conditions) (length params))
unfolding where_loop
where_loop-reads whitelist c [] query params tests clause h e =
    let (column, found, e1) = >>=-eq-ok (get_column_name whitelist c.column) _ e in
    let (pieces, written, e2) = >>=-eq-ok (condition_pieces c.op column (length params + 1)) _ e1 in
    let same : query ++ (pieces ++ []) ≡ clause.query = cc in
    rw (← same) (
      read-append nothing_read query (pieces ++ [])
      ∙ ap (λ (r : Reading). read r (pieces ++ [])) h
      ∙ read-append (where_read at_column tests) pieces []
      ∙ read-condition_pieces c.op column (length params + 1) pieces tests written
      ∙ rw found refl)
where_loop-reads whitelist c (d ∷ conditions) query params tests clause h e =
    let (column, found, e1) = >>=-eq-ok (get_column_name whitelist c.column) _ e in
    let (pieces, written, e2) = >>=-eq-ok (condition_pieces c.op column (length params + 1)) _ e1 in
    let test : Test = record { column = column; op = c.op; place = length params + 1 } in
    let step : read nothing_read (query ++ (pieces ++ sql " AND " ∷ []))
        ≡ where_read at_column (tests ++ test ∷ []) =
      read-append nothing_read query (pieces ++ sql " AND " ∷ [])
      ∙ ap (λ (r : Reading). read r (pieces ++ sql " AND " ∷ [])) h
      ∙ read-append (where_read at_column tests) pieces (sql " AND " ∷ [])
      ∙ ap (λ (r : Reading). read r (sql " AND " ∷ []))
          (read-condition_pieces c.op column (length params + 1) pieces tests written) in
    where_loop-reads whitelist d conditions _ (params ++ c.binder ∷ []) (tests ++ test ∷ []) clause
      step e2
    ∙ ap (where_read in_where) (
        append_assoc tests (test ∷ [])
          (tests_of whitelist (d ∷ conditions) (length (params ++ c.binder ∷ [])))
        ∙ rw (length-push params c.binder, found) refl)

-- Where the reader is after the conditions.
abbrev pub after_where : List Condition → Mode
after_where [] = start
after_where (c ∷ conditions) = in_where

-- An order can follow, with conditions and without.
pub after_where-order :
    (conditions : List Condition) (tests : List Test)
    → read (where_read (after_where conditions) tests) (sql " ORDER BY " ∷ [])
      ≡ where_read at_order tests
after_where-order [] tests = refl
after_where-order (c ∷ conditions) tests = refl

-- The conditions of a clause are read as they were given.
pub where_part-reads :
    (whitelist : FieldWhitelist) (conditions : List Condition) (clause : QueryClause)
    → where_part whitelist conditions ≡ ok clause
    → read nothing_read clause.query
      ≡ where_read (after_where conditions) (tests_of whitelist conditions 0)
unfolding where_part
where_part-reads whitelist [] clause e = let same : [] ≡ clause.query = cc in rw (← same) refl
where_part-reads whitelist (c ∷ conditions) clause e =
    where_loop-reads whitelist c conditions (sql " WHERE " ∷ []) [] [] clause refl e
