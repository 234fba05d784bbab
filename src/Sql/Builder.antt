-- ===== src/Sql/Builder.antt =====
-- utils/include/utils/sql_builder.hpp and `BuildQueryClause` of utils/src/sql_builder.cpp.
-- The memory buffer is the list of the pieces that `format_to` appends to it; `$n` is a piece of
-- its own, since the decimal print of n is fmt's.
pub mod Placeholders
pub mod Whitelist
pub mod Trusted
use pawspective_backend.Base.{
  ℕ, suc, ◌+◌, String, Bool, List, [], ◌∷◌, ◌++◌, Option, none, some, ℤ, ◌==◌, text_Eq, length,
  is_empty, if◌then◌else◌, not,
}
use pawspective_backend.Errors.{Result, ok, err, ◌>>=◌, invalid_argument, logic_error}
use pawspective_backend.Sql.Escape.{escape_for_like}

pub data Op : Type 0 where
  equal not_equal greater less greater_or_equal less_or_equal ilike any : Op

pub data SortOrder : Type 0 where
  asc desc : SortOrder

-- What a `ValuePusher` pushes.
pub data Value : Type 0 where
  number : ℤ → Value
  text : List ℕ → Value
  numbers : List ℤ → Value
  texts : List String → Value

pub record Condition : Type 0 where
  pub column : String
  pub op : Op
  pub binder : Value

pub record SortSpec : Type 0 where
  pub column : String
  pub order : SortOrder

pub record PageSpec : Type 0 where
  pub limit : Option ℤ
  pub offset : Option ℤ

abbrev pub FieldWhitelist : Type 0
FieldWhitelist = List (String × String)

pub record QueryWhitelist : Type 0 where
  pub filter_fields : FieldWhitelist
  pub sort_fields : FieldWhitelist

pub record QueryFilter : Type 0 where
  pub conditions : List Condition
  pub sort_specs : List SortSpec
  pub page_spec : PageSpec

pub data Piece : Type 0 where
  sql : String → Piece
  placeholder : ℕ → Piece

pub record QueryClause : Type 0 where
  pub query : List Piece
  pub parameters : List Value

-- The factories of `Condition`.
abbrev pub condition_ilike : String → List ℕ → Condition
condition_ilike column value = record {
  column = column;
  op = ilike;
  binder = text (escape_for_like value);
}

abbrev pub condition_ge : String → ℤ → Condition
condition_ge column value = record { column = column; op = greater_or_equal; binder = number value }

abbrev pub condition_le : String → ℤ → Condition
condition_le column value = record { column = column; op = less_or_equal; binder = number value }

abbrev pub condition_any : String → Value → Condition
condition_any column values = record { column = column; op = any; binder = values }

unfoldable pub op_to_sql : Op → Result String
op_to_sql equal = ok "="
op_to_sql not_equal = ok "!="
op_to_sql greater = ok ">"
op_to_sql less = ok "<"
op_to_sql greater_or_equal = ok ">="
op_to_sql less_or_equal = ok "<="
op_to_sql ilike = err logic_error
op_to_sql any = err logic_error

unfoldable pub get_column_name : FieldWhitelist → String → Result String
get_column_name [] field_name = err invalid_argument
get_column_name ((name, column) ∷ whitelist) field_name =
    if name == field_name then ok column else get_column_name whitelist field_name

-- The `switch` of the WHERE part.
unfoldable pub condition_pieces : Op → String → ℕ → Result (List Piece)
unfolding op_to_sql
condition_pieces ilike column n =
    ok (sql column ∷ sql " ILIKE '%' || " ∷ placeholder n ∷ sql " || '%' ESCAPE '\\'" ∷ [])
condition_pieces any column n = ok (sql column ∷ sql " = ANY(" ∷ placeholder n ∷ sql ")" ∷ [])
condition_pieces op column n =
    op_to_sql op >>= λ symbol. ok (sql column ∷ sql " " ∷ sql symbol ∷ sql " " ∷ placeholder n ∷ [])

abbrev pub separator : {A : Type 0} → List A → String → List Piece
separator rest mark = if not (is_empty rest) then sql mark ∷ [] else []

unfoldable pub where_loop :
    FieldWhitelist → List Condition → List Piece → List Value → Result QueryClause
unfolding get_column_name condition_pieces
where_loop whitelist [] query params = ok (record { query = query; parameters = params })
where_loop whitelist (cond ∷ conditions) query params =
    get_column_name whitelist cond.column >>= λ column.
    condition_pieces cond.op column (length params + 1) >>= λ pieces.
    where_loop whitelist conditions (query ++ (pieces ++ separator conditions " AND "))
      (params ++ cond.binder ∷ [])

abbrev pub order_to_sql : SortOrder → String
order_to_sql asc = "ASC"
order_to_sql desc = "DESC"

unfoldable pub order_loop : FieldWhitelist → List SortSpec → List Piece → Result (List Piece)
unfolding get_column_name
order_loop whitelist [] query = ok query
order_loop whitelist (spec ∷ specs) query = get_column_name whitelist spec.column >>= λ column.
    order_loop whitelist specs
      (query ++ (sql column ∷ sql " " ∷ sql (order_to_sql spec.order) ∷ separator specs ", "))

-- The LIMIT and the OFFSET part.
unfoldable pub page_part : String → Option ℤ → QueryClause → QueryClause
page_part keyword none clause = clause
page_part keyword (some n) clause = record {
  query = clause.query ++ (sql keyword ∷ placeholder (length clause.parameters + 1) ∷ []);
  parameters = clause.parameters ++ number n ∷ [];
}

unfoldable pub where_part : FieldWhitelist → List Condition → Result QueryClause
unfolding where_loop
where_part whitelist [] = ok (record { query = []; parameters = [] })
where_part whitelist (cond ∷ conditions) =
    where_loop whitelist (cond ∷ conditions) (sql " WHERE " ∷ []) []

unfoldable pub order_part : FieldWhitelist → List SortSpec → List Piece → Result (List Piece)
unfolding order_loop
order_part whitelist [] query = ok query
order_part whitelist (spec ∷ specs) query =
    order_loop whitelist (spec ∷ specs) (query ++ sql " ORDER BY " ∷ [])

unfoldable pub build_query_clause : QueryFilter → QueryWhitelist → Result QueryClause
unfolding where_part order_part page_part
build_query_clause filter whitelist =
    where_part whitelist.filter_fields filter.conditions >>= λ clause.
    order_part whitelist.sort_fields filter.sort_specs clause.query >>= λ query.
    let ordered : QueryClause = record { query = query; parameters = clause.parameters } in
    let limited = page_part " LIMIT " filter.page_spec.limit ordered in
    ok (page_part " OFFSET " filter.page_spec.offset limited)
