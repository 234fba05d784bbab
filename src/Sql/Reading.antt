-- ===== src/Sql/Reading.antt =====
-- How PostgreSQL reads a clause of the builder: its conditions, its order and its bounds, with the
-- places of their parameters.
pub mod Where
use pawspective_backend.Base.{
  ℕ, String, text_Eq, ◌==◌, ◌≡◌, refl, ap, Bool, true, false, Option, none, some, List, [], ◌∷◌,
  ◌++◌, if◌then◌else◌,
}
use pawspective_backend.Sql.Builder.{
  Op, equal, not_equal, greater, less, greater_or_equal, less_or_equal, ilike, any, SortOrder, asc,
  desc, Piece, sql, placeholder,
}

-- One condition: a column is compared with the parameter of a number.
pub record Test : Type 0 where
  pub column : String
  pub op : Op
  pub place : ℕ

-- Where the reader is: between two parts of the clause, or inside one.
pub data Mode : Type 0 where
  start in_where in_order in_limit finished : Mode
  at_column at_order at_limit at_offset refused : Mode
  after_column at_symbol after_order at_direction : String → Mode
  after_symbol at_value : String → Op → Mode
  at_closed : String → Op → String → Mode
  at_close : String → Op → ℕ → String → Mode

pub record Reading : Type 0 where
  pub mode : Mode
  pub tests : List Test
  pub orders : List (String × SortOrder)
  pub limit : Option ℕ
  pub offset : Option ℕ

abbrev pub nothing_read : Reading
nothing_read = record { mode = start; tests = []; orders = []; limit = none; offset = none }

abbrev go_on : Mode → Reading → Reading
go_on mode r = record r { mode = mode }

abbrev tested : String → Op → ℕ → Reading → Reading
tested column op place r = record r {
  mode = in_where;
  tests = r.tests ++ record { column = column; op = op; place = place } ∷ [];
}

abbrev ordered : String → SortOrder → Reading → Reading
ordered column order r = record r { mode = in_order; orders = r.orders ++ (column, order) ∷ [] }

-- The clauses stand in the order of SELECT, each at most once.
abbrev after_limit : String → Mode
after_limit s = if s == " OFFSET " then at_offset else refused

abbrev after_orders : String → Mode
after_orders s = if s == " LIMIT " then at_limit else after_limit s

abbrev after_conditions : String → Mode
after_conditions s = if s == " ORDER BY " then at_order else after_orders s

abbrev comparison : String → String → Mode
comparison column s =
    if s == " = ANY("
    then at_closed column any ")"
    else if s == " ILIKE '%' || "
    then at_closed column ilike " || '%' ESCAPE '\\'"
    else if s == " "
    then at_symbol column
    else refused

abbrev symbol : String → String → Mode
symbol column s =
    if s == "="
    then after_symbol column equal
    else if s == "!="
    then after_symbol column not_equal
    else if s == ">"
    then after_symbol column greater
    else if s == "<"
    then after_symbol column less
    else if s == ">="
    then after_symbol column greater_or_equal
    else if s == "<="
    then after_symbol column less_or_equal
    else refused

abbrev direction : String → String → Reading → Reading
direction column s r =
    if s == "ASC"
    then ordered column asc r
    else if s == "DESC"
    then ordered column desc r
    else go_on refused r

abbrev next : Mode → Piece → Reading → Reading
next start (sql s) r = go_on (if s == " WHERE " then at_column else after_conditions s) r
next in_where (sql s) r = go_on (if s == " AND " then at_column else after_conditions s) r
next in_order (sql s) r = go_on (if s == ", " then at_order else after_orders s) r
next in_limit (sql s) r = go_on (after_limit s) r
next at_column (sql s) r = go_on (after_column s) r
next (after_column column) (sql s) r = go_on (comparison column s) r
next (at_symbol column) (sql s) r = go_on (symbol column s) r
next (after_symbol column op) (sql s) r = go_on (if s == " " then at_value column op else refused) r
next (at_value column op) (placeholder n) r = tested column op n r
next (at_closed column op close) (placeholder n) r = go_on (at_close column op n close) r
next (at_close column op n close) (sql s) r =
    if s == close then tested column op n r else go_on refused r
next at_order (sql s) r = go_on (after_order s) r
next (after_order column) (sql s) r = go_on (if s == " " then at_direction column else refused) r
next (at_direction column) (sql s) r = direction column s r
next at_limit (placeholder n) r = record r { mode = in_limit; limit = some n }
next at_offset (placeholder n) r = record r { mode = finished; offset = some n }
next _ _ r = go_on refused r

abbrev pub read : Reading → List Piece → Reading
read r [] = r
read r (piece ∷ pieces) = read (next r.mode piece r) pieces

pub read-append :
    (r : Reading) (first second : List Piece)
    → read r (first ++ second) ≡ read (read r first) second
read-append r [] second = refl
read-append r (piece ∷ first) second = read-append (next r.mode piece r) first second
