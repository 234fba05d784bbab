-- ===== src/Repositories/Search.antt =====
-- The clauses of AnimalRepository::FindByFiltersPaginated: the conditions that a filter gives, and
-- the two queries that are built from them.
pub mod Clauses
pub mod Select
pub mod Selected
pub mod Rows
pub mod Meaning
pub mod Conditions
pub mod Found
pub mod Options
use pawspective_backend.Base.{
  ℕ, ℤ, pos, String, Option, none, some, List, [], ◌∷◌, ◌++◌, Bool, is_empty, if◌then◌else◌,
}
use pawspective_backend.Errors.{Result, ok, err, ◌>>=◌}
use pawspective_backend.Models.Enums.{
  EnumKind, Enum, enum_to_literal, size, gender, care_level, good_with, color, status, animal_type,
}
use pawspective_backend.Models.Records.{AnimalFilters}
use pawspective_backend.Sql.Builder.{
  numbers, texts, Condition, condition_any, condition_ge, condition_le, asc, QueryFilter,
  QueryWhitelist, QueryClause, build_query_clause,
}
use pawspective_backend.Repositories.Paging.{page_window, to_int32}

-- kFilterWhitelist
abbrev pub filter_whitelist : QueryWhitelist
filter_whitelist = record {
  filter_fields =
      ("breeds", "a.breed_id")
      ∷ ("cityIds", "o.city_id")
      ∷ ("animalTypes", "b.animal_type::text")
      ∷ ("sizes", "a.size::text")
      ∷ ("genders", "a.gender::text")
      ∷ ("careLevels", "a.care_level::text")
      ∷ ("colors", "a.color::text")
      ∷ ("goodWiths", "a.good_with::text")
      ∷ ("statuses", "a.status::text")
      ∷ ("age", "a.age")
      ∷ [];
  sort_fields = ("id", "a.id") ∷ [];
}

unfoldable pub enums_to_literals : (k : EnumKind) → List (Enum k) → Result (List String)
enums_to_literals k [] = ok []
enums_to_literals k (v ∷ values) = enum_to_literal k v >>= λ literal.
    enums_to_literals k values >>= λ result. ok (literal ∷ result)

unfoldable pub add_any_enum :
    (k : EnumKind) → String → List (Enum k) → List Condition → Result (List Condition)
unfolding enums_to_literals
add_any_enum k key [] conditions = ok conditions
add_any_enum k key (v ∷ values) conditions = enums_to_literals k (v ∷ values) >>= λ literals.
    ok (conditions ++ condition_any key (texts literals) ∷ [])

abbrev pub add_any_ids : String → List ℤ → List Condition → List Condition
add_any_ids key [] conditions = conditions
add_any_ids key (i ∷ ids) conditions = conditions ++ condition_any key (numbers (i ∷ ids)) ∷ []

unfoldable pub build_conditions : AnimalFilters → Result (List Condition)
unfolding add_any_enum
build_conditions filter =
    add_any_enum animal_type "animalTypes" filter.animal_types
      (add_any_ids "cityIds" filter.city_ids (add_any_ids "breeds" filter.breed_ids []))
    >>= λ c1. add_any_enum size "sizes" filter.sizes c1 >>= λ c2.
        add_any_enum gender "genders" filter.genders c2 >>= λ c3.
        add_any_enum care_level "careLevels" filter.care_levels c3 >>= λ c4.
        add_any_enum color "colors" filter.colors c4 >>= λ c5.
        add_any_enum good_with "goodWiths" filter.good_withs c5 >>= λ c6.
        add_any_enum status "statuses" filter.statuses c6 >>= λ c7.
        ok (c7 ++ condition_ge "age" filter.min_age ∷ condition_le "age" filter.max_age ∷ [])

abbrev count_filter : List Condition → QueryFilter
count_filter conditions = record {
  conditions = conditions;
  sort_specs = [];
  page_spec = record { limit = none; offset = none };
}

abbrev data_filter : List Condition → ℕ → ℤ → QueryFilter
data_filter conditions limit offset = record {
  conditions = conditions;
  sort_specs = record { column = "id"; order = asc } ∷ [];
  page_spec = record { limit = some (pos limit); offset = some offset };
}

-- The clauses of the query that counts and of the one that reads the page.
unfoldable pub search_clauses : AnimalFilters → ℤ → ℤ → Result (QueryClause × QueryClause)
unfolding page_window to_int32 build_conditions build_query_clause
search_clauses filter page limit = page_window page limit >>= λ window.
    build_conditions filter >>= λ conditions.
    build_query_clause (count_filter conditions) filter_whitelist >>= λ count_clause.
    build_query_clause (data_filter conditions window.0 (to_int32 window.1)) filter_whitelist
    >>= λ data_clause. ok (count_clause, data_clause)
