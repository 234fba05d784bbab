-- ===== src/Repositories/Search/Select.antt =====
-- The two queries of AnimalRepository::FindByFiltersPaginated on the join of animals with their breeds
-- and organizations: what PostgreSQL gives for the clauses that are sent.
use pawspective_backend.Base.{
  ℕ, zero, suc, ℤ, pos, String, text_Eq, id_leb, Option, none, some, List, [], ◌∷◌, Bool, true,
  false, not, ◌&&◌, all, any, length, take, drop, is_empty, has_value, ◌==◌, if◌then◌else◌,
}
use pawspective_backend.Errors.{Result, ok, err, sql_error, ◌>>=◌}
use pawspective_backend.Models.Enums.{
  enum_to_literal, size, gender, care_level, good_with, color, status, animal_type,
}
use pawspective_backend.Models.Records.{Animal, Breed, Organization}
use pawspective_backend.Db.Table.{find, where_rows}
use pawspective_backend.Db.Tables.{Db, Breed-keyed, Organization-keyed}
use pawspective_backend.Sql.Builder.{
  Op, SortOrder, asc, desc, Value, number, numbers, texts, Condition, QueryClause, get_column_name,
}
use pawspective_backend.Sql.Reading.{
  Test, Mode, start, in_where, in_order, in_limit, finished, Reading, nothing_read, read,
}
use pawspective_backend.Sql.Reading.Where.{column_of}
use pawspective_backend.Repositories.Catalogue.{among, has_literal}
use pawspective_backend.Repositories.Paging.{order_by}
use pawspective_backend.Repositories.Search.{filter_whitelist}

-- A column of the joined row is a number, a text or NULL.
pub data Cell : Type 0 where
  integer : ℤ → Cell
  literal : Result String → Cell
  null : Cell

abbrev pub breed_type : Option Breed → Cell
breed_type none = null
breed_type (some b) = literal (enum_to_literal animal_type b.animal_type)

abbrev pub city_of : Option Organization → Cell
city_of none = null
city_of (some o) = integer o.city_id

-- The columns that kFilterWhitelist names, for conditions and for the order.
abbrev pub cell : Db → Animal → String → Cell
cell db a column =
    if column == "a.breed_id"
    then integer a.breed_id
    else if column == "o.city_id"
    then city_of (find a.organization_id db.organizations)
    else if column == "b.animal_type::text"
    then breed_type (find a.breed_id db.breeds)
    else if column == "a.size::text"
    then literal (enum_to_literal size a.size)
    else if column == "a.gender::text"
    then literal (enum_to_literal gender a.gender)
    else if column == "a.care_level::text"
    then literal (enum_to_literal care_level a.care_level)
    else if column == "a.color::text"
    then literal (enum_to_literal color a.color)
    else if column == "a.good_with::text"
    then literal (enum_to_literal good_with a.good_with)
    else if column == "a.status::text"
    then literal (enum_to_literal status a.status)
    else if column == "a.age"
    then integer a.age
    else if column == "a.id"
    then integer a.id
    else null

-- column = ANY(values), column >= value and column <= value; a comparison with NULL does not hold.
abbrev pub compares : Op → Value → Cell → Bool
compares Op.any (numbers ids) (integer i) = among ids i
compares Op.any (texts literals) (literal found) = any (λ s. has_literal s found) literals
compares Op.greater_or_equal (number n) (integer i) = id_leb n i
compares Op.less_or_equal (number n) (integer i) = id_leb i n
compares _ _ _ = false

-- A condition holds of the joined row of an animal.
abbrev pub holds : Db → Animal → Condition → Bool
holds db a condition =
    compares condition.op condition.binder
      (cell db a (column_of (get_column_name filter_whitelist.filter_fields condition.column)))

-- The value of the parameter `$n`.
unfoldable pub value_at : List Value → ℕ → Option Value
value_at [] n = none
value_at (v ∷ params) zero = none
value_at (v ∷ params) (suc zero) = some v
value_at (v ∷ params) (suc (suc n)) = value_at params (suc n)

abbrev passes_with : Option Value → Op → Cell → Bool
passes_with none op found = false
passes_with (some v) op found = compares op v found

abbrev pub passes : Db → List Value → Animal → Test → Bool
passes db params a test = passes_with (value_at params test.place) test.op (cell db a test.column)

abbrev pub less : Cell → Cell → Bool
less (integer i) (integer j) = not (id_leb j i)
less _ _ = false

abbrev directed : SortOrder → Cell → Cell → Bool → Bool
directed asc x y rest = if less x y then true else if less y x then false else rest
directed desc x y rest = if less y x then true else if less x y then false else rest

-- ORDER BY, by one column after the other
abbrev pub sorted_before : Db → List (String × SortOrder) → Animal → Animal → Bool
sorted_before db [] a b = true
sorted_before db ((column, order) ∷ orders) a b =
    directed order (cell db a column) (cell db b column) (sorted_before db orders a b)

-- The number of a bound, which PostgreSQL refuses where it is negative or no number.
abbrev natural : Option Value → Result ℕ
natural (some (number (pos n))) = ok n
natural _ = err sql_error

abbrev limited : List Value → Option ℕ → List Animal → Result (List Animal)
limited params none rows = ok rows
limited params (some place) rows = natural (value_at params place) >>= λ n. ok (take n rows)

abbrev skipped : List Value → Option ℕ → List Animal → Result (List Animal)
skipped params none rows = ok rows
skipped params (some place) rows = natural (value_at params place) >>= λ n. ok (drop n rows)

abbrev pub is_complete : Mode → Bool
is_complete start = true
is_complete in_where = true
is_complete in_order = true
is_complete in_limit = true
is_complete finished = true
is_complete _ = false

abbrev pub chosen : QueryClause → Db → List Test → List Animal
chosen clause db tests = where_rows (λ a. all (passes db clause.parameters a) tests) db.animals

abbrev pub rows_read : Reading → QueryClause → Db → Result (List Animal)
rows_read r clause db =
    if not (is_complete r.mode)
    then err sql_error
    else skipped clause.parameters r.offset
        (order_by (sorted_before db r.orders) (chosen clause db r.tests))
      >>= limited clause.parameters r.limit

-- SELECT a.id, … FROM … with a clause
unfoldable pub select_rows : QueryClause → Db → Result (List Animal)
unfolding order_by value_at
select_rows clause db = rows_read (read nothing_read clause.query) clause db

abbrev pub number_read : Reading → QueryClause → Db → Result ℕ
number_read r clause db =
    if is_complete r.mode
      && is_empty r.orders
      && not (has_value r.limit)
      && not (has_value r.offset)
    then ok (length (chosen clause db r.tests))
    else err sql_error

-- SELECT COUNT(*) FROM … with a clause of conditions only
unfoldable pub select_count : QueryClause → Db → Result ℕ
unfolding value_at
select_count clause db = number_read (read nothing_read clause.query) clause db
