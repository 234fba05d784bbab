-- ===== src/Repositories/Search/Selected.antt =====
-- The rows and the number that PostgreSQL gives for the clauses of a search, by its conditions.
use pawspective_backend.Base.{
  ℕ, suc, ◌+◌, ℤ, pos, negsuc, ◌≡◌, refl, sym, ◌∙◌, ap, Bool, true, false, some, List, [], ◌∷◌,
  ◌++◌, all, length, take, drop, arith, id_leb, Bool-cases, inl, inr,
}
use mathlib.Core.Path.{fun_ext}
use mathlib.Core.List.{append_assoc, append-nil}
use pawspective_backend.Errors.{ok, >>=-eq-ok}
use pawspective_backend.Models.Records.{Animal}
use pawspective_backend.Db.Table.{where_rows}
use pawspective_backend.Db.Tables.{Db, Breed-keyed, Organization-keyed}
use pawspective_backend.Sql.Builder.{
  Value, number, asc, Condition, Piece, sql, placeholder, QueryClause, get_column_name,
  build_query_clause, where_part, order_part, order_loop, page_part,
}
use pawspective_backend.Sql.Builder.Placeholders.{binders, where_part_lem}
use pawspective_backend.Sql.Reading.{Test, Reading, finished, nothing_read, read, read-append}
use pawspective_backend.Sql.Reading.Where.{
  tests_of, where_read, after_where, after_where-order, where_part-reads, length-push,
}
use pawspective_backend.Repositories.Paging.{page_rows, order_by}
use pawspective_backend.Repositories.Animals.{by_id}
use pawspective_backend.Repositories.Search.{filter_whitelist, count_filter, data_filter}
use pawspective_backend.Repositories.Search.Select.{
  holds, value_at, passes, sorted_before, is_complete, chosen, select_rows, select_count,
}

value_at-append :
    (before : List Value) (v : Value) (after : List Value)
    → value_at (before ++ v ∷ after) (length before + 1) ≡ some v
unfolding value_at
value_at-append [] v after = refl
value_at-append (x ∷ before) v after =
    let later : length (x ∷ before) + 1 ≡ suc (suc (length before)) = omega arith in
    let here : length before + 1 ≡ suc (length before) = omega arith in
    rw later (rw here at (value_at-append before v after))

-- With the values of the conditions at their places, the tests that are read are the conditions.
passes-holds :
    (db : Db) (a : Animal) (conditions : List Condition) (before after : List Value)
    → all
        (passes db (before ++ (binders conditions ++ after)) a)
        (tests_of filter_whitelist.filter_fields conditions (length before))
      ≡ all (holds db a) conditions
passes-holds db a [] before after = refl
passes-holds db a (c ∷ conditions) before after =
    let rest = passes-holds db a conditions (before ++ c.binder ∷ []) after in
    let shift : (before ++ c.binder ∷ []) ++ (binders conditions ++ after)
        ≡ before ++ (c.binder ∷ (binders conditions ++ after)) =
      append_assoc before (c.binder ∷ []) (binders conditions ++ after) in
    let tail : all (passes db (before ++ (c.binder ∷ (binders conditions ++ after))) a)
          (tests_of filter_whitelist.filter_fields conditions (length before + 1))
        ≡ all (holds db a) conditions =
      rw (← shift, ← length-push before c.binder) rest in
    rw (value_at-append before c.binder (binders conditions ++ after), tail) refl

abbrev pub fitting : Db → List Condition → List Animal
fitting db conditions = where_rows (λ a. all (holds db a) conditions) db.animals

chosen-fitting :
    (db : Db) (conditions : List Condition) (clause : QueryClause) (after : List Value)
    → clause.parameters ≡ binders conditions ++ after
    → chosen clause db (tests_of filter_whitelist.filter_fields conditions 0)
      ≡ fitting db conditions
chosen-fitting db conditions clause after e = rw e (
    ap (λ (p : Animal → Bool). where_rows p db.animals)
      (fun_ext (λ (a : Animal). passes-holds db a conditions [] after)))

after_where_complete : (conditions : List Condition) → is_complete (after_where conditions) ≡ true
after_where_complete [] = refl
after_where_complete (c ∷ conditions) = refl

-- The query that counts counts the animals of which the conditions hold.
pub select_count-fitting :
    (db : Db) (conditions : List Condition) (clause : QueryClause)
    → build_query_clause (count_filter conditions) filter_whitelist ≡ ok clause
    → select_count clause db ≡ ok (length (fitting db conditions))
unfolding build_query_clause order_part page_part select_count
select_count-fitting db conditions clause e =
    let (written, e0, e1) = >>=-eq-ok (where_part filter_whitelist.filter_fields conditions) _ e in
    let (numbered, values) = where_part_lem filter_whitelist.filter_fields conditions written e0 in
    let same : written ≡ clause = cc in
    rw (← same) (
      rw (where_part-reads filter_whitelist.filter_fields conditions written e0) (
        rw (after_where_complete conditions) (
          ap (λ (rows : List Animal). ok (length rows))
            (chosen-fitting db conditions written []
              (values ∙ sym (append-nil (binders conditions)))))))

id_leb-total : (i j : ℤ) → id_leb i j ≡ false → id_leb j i ≡ true
id_leb-total (pos i) (pos j) h = ground arith
id_leb-total (pos i) (negsuc j) h = ground arith
id_leb-total (negsuc i) (pos j) h = ground arith
id_leb-total (negsuc i) (negsuc j) h = ground arith

sorted_before-by_id :
    (db : Db) (a b : Animal) → sorted_before db (("a.id", asc) ∷ []) a b ≡ by_id a b
sorted_before-by_id db a b = elim (Bool-cases (id_leb b.id a.id)) [
  | inr less_than ↦ rw (less_than, id_leb-total b.id a.id less_than) refl
  | inl above ↦ elim (Bool-cases (id_leb a.id b.id)) [
    | inl equal ↦ rw (above, equal) refl
    | inr greater_than ↦ rw (above, greater_than) refl
  ]
]

-- The end of the clause of the data query.
abbrev by_id_page : List Piece → ℕ → ℕ → List Piece
by_id_page query limit offset =
    (((query ++ sql " ORDER BY " ∷ []) ++ (sql "a.id" ∷ sql " " ∷ sql "ASC" ∷ []))
      ++ (sql " LIMIT " ∷ placeholder limit ∷ []))
    ++ (sql " OFFSET " ∷ placeholder offset ∷ [])

abbrev page_read : Reading → ℕ → ℕ → Reading
page_read r limit offset = record r {
  mode = finished;
  orders = ("a.id", asc) ∷ [];
  limit = some limit;
  offset = some offset;
}

by_id_page-reads :
    (conditions : List Condition) (query : List Piece) (tests : List Test) (limit offset : ℕ)
    → read nothing_read query ≡ where_read (after_where conditions) tests
    → read nothing_read (by_id_page query limit offset)
      ≡ page_read (where_read (after_where conditions) tests) limit offset
by_id_page-reads conditions query tests limit offset h =
    let ordered = query ++ sql " ORDER BY " ∷ [] in
    let directed = ordered ++ (sql "a.id" ∷ sql " " ∷ sql "ASC" ∷ []) in
    let limited = directed ++ (sql " LIMIT " ∷ placeholder limit ∷ []) in
    rw
      (
        read-append nothing_read limited (sql " OFFSET " ∷ placeholder offset ∷ []),
        read-append nothing_read directed (sql " LIMIT " ∷ placeholder limit ∷ []),
        read-append nothing_read ordered (sql "a.id" ∷ sql " " ∷ sql "ASC" ∷ []),
        read-append nothing_read query (sql " ORDER BY " ∷ []),
        h,
        after_where-order conditions tests,
      )
      refl

-- The data query gives the page of these animals in the order of their ids.
select_rows-fitting :
    (db : Db) (conditions : List Condition) (limit offset : ℕ) (clause : QueryClause)
    → build_query_clause (data_filter conditions limit (pos offset)) filter_whitelist ≡ ok clause
    → select_rows clause db ≡ ok (page_rows limit offset (order_by by_id (fitting db conditions)))
unfolding build_query_clause order_part order_loop page_part get_column_name select_rows
select_rows-fitting db conditions limit offset clause e =
    let (written, e0, e1) = >>=-eq-ok (where_part filter_whitelist.filter_fields conditions) _ e in
    let (numbered, values) = where_part_lem filter_whitelist.filter_fields conditions written e0 in
    let bounded = written.parameters ++ number (pos limit) ∷ [] in
    let built : QueryClause = record {
      query = by_id_page written.query (length written.parameters + 1) (length bounded + 1);
      parameters = bounded ++ number (pos offset) ∷ [];
    } in
    let same : built ≡ clause = cc in
    let reading =
      by_id_page-reads conditions written.query
        (tests_of filter_whitelist.filter_fields conditions 0) (length written.parameters + 1)
        (length bounded + 1)
        (where_part-reads filter_whitelist.filter_fields conditions written e0) in
    let placed : built.parameters
        ≡ written.parameters ++ (number (pos limit) ∷ number (pos offset) ∷ []) =
      append_assoc written.parameters (number (pos limit) ∷ []) (number (pos offset) ∷ []) in
    let at_limit : value_at built.parameters (length written.parameters + 1)
        ≡ some (number (pos limit)) =
      rw placed
        (value_at-append written.parameters (number (pos limit)) (number (pos offset) ∷ [])) in
    let at_offset : value_at built.parameters (length bounded + 1) ≡ some (number (pos offset)) =
      value_at-append bounded (number (pos offset)) [] in
    let sorted : sorted_before db (("a.id", asc) ∷ []) ≡ by_id =
      fun_ext (λ (a : Animal). fun_ext (sorted_before-by_id db a)) in
    let rows = chosen-fitting db conditions built (number (pos limit) ∷ number (pos offset) ∷ []) (
      placed
      ∙ ap (λ (ps : List Value). ps ++ (number (pos limit) ∷ number (pos offset) ∷ [])) values) in
    rw (← same) (
      rw (reading, at_offset, at_limit)
        (ap
            (λ (f : Animal → Animal → Bool). ok (
              take limit (
                drop offset (
                  order_by f
                    (chosen built db (tests_of filter_whitelist.filter_fields conditions 0))))))
            sorted
          ∙ ap (λ (l : List Animal). ok (take limit (drop offset (order_by by_id l)))) rows))

pub select_rows-page :
    (db : Db) (conditions : List Condition) (limit offset : ℕ) (sent : ℤ) (clause : QueryClause)
    → sent ≡ pos offset
    → build_query_clause (data_filter conditions limit sent) filter_whitelist ≡ ok clause
    → select_rows clause db ≡ ok (page_rows limit offset (order_by by_id (fitting db conditions)))
select_rows-page db conditions limit offset sent clause h e =
    select_rows-fitting db conditions limit offset clause (
      ap (λ (i : ℤ). build_query_clause (data_filter conditions limit i) filter_whitelist) (sym h)
      ∙ e)
