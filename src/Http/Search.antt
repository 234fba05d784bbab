-- ===== src/Http/Search.antt =====
-- animal_list_handler.cpp: the filters of the search that a request gives.
pub mod Queries
use pawspective_backend.Base.{ℤ, String, Option, none, some, List, [], ◌∷◌}
use pawspective_backend.HttpErrors.{k_validation_error}
use pawspective_backend.Errors.{Result, ok, ◌>>=◌}
use pawspective_backend.Models.Enums.{
  EnumKind, Enum, size, gender, care_level, good_with, color, status, animal_type,
}
use pawspective_backend.Models.EnumText.{parse}
use pawspective_backend.Models.Dto.{AnimalFilterDto}
use pawspective_backend.Exec.{rethrown}
use pawspective_backend.Std.Chars.{codes}
use pawspective_backend.Std.Decimal.{stoll, stoi}
use pawspective_backend.Http.ErrorResponse.{client_error}
use pawspective_backend.Http.Request.{HttpRequest, every}

-- The loop of ParseEnumVector; nothing catches what `As` throws.
unfoldable pub parse_enums : (k : EnumKind) → List String → Result (List (Enum k))
parse_enums k [] = ok []
parse_enums k (s ∷ args) = do value ← parse k s; result ← parse_enums k args; ok (value ∷ result)

unfoldable pub parse_enum_vector : (k : EnumKind) → List String → Result (Option (List (Enum k)))
parse_enum_vector k [] = ok none
parse_enum_vector k (s ∷ args) = do values ← parse_enums k (s ∷ args); ok (some values)

unfoldable pub parse_ids : List String → Result (List ℤ)
unfolding stoll
parse_ids [] = ok []
parse_ids (s ∷ args) = do
  id ← rethrown (every (client_error k_validation_error)) (stoll (codes s))
  result ← parse_ids args
  ok (id ∷ result)

unfoldable pub parse_int64_vector : List String → Result (Option (List ℤ))
parse_int64_vector [] = ok none
parse_int64_vector (s ∷ args) = do ids ← parse_ids (s ∷ args); ok (some ids)

unfoldable pub parse_optional_int : Option String → Result (Option ℤ)
unfolding stoi
parse_optional_int none = ok none
parse_optional_int (some s) = do
  number ← rethrown (every (client_error k_validation_error)) (stoi (codes s))
  ok (some number)

unfoldable pub parse_filters_from_request : HttpRequest → Result AnimalFilterDto
parse_filters_from_request request = do
  breeds ← parse_int64_vector (request.arg_vector "breeds")
  city_ids ← parse_int64_vector (request.arg_vector "city_ids")
  animal_types ← parse_enum_vector animal_type (request.arg_vector "animal_types")
  sizes ← parse_enum_vector size (request.arg_vector "sizes")
  genders ← parse_enum_vector gender (request.arg_vector "genders")
  care_levels ← parse_enum_vector care_level (request.arg_vector "care_levels")
  colors ← parse_enum_vector color (request.arg_vector "colors")
  good_withs ← parse_enum_vector good_with (request.arg_vector "good_withs")
  statuses ← parse_enum_vector status (request.arg_vector "statuses")
  age_gte ← parse_optional_int (request.arg "age_gte")
  age_lte ← parse_optional_int (request.arg "age_lte")
  ok (record {
    breeds = breeds;
    city_ids = city_ids;
    animal_types = animal_types;
    sizes = sizes;
    genders = genders;
    care_levels = care_levels;
    colors = colors;
    good_withs = good_withs;
    statuses = statuses;
    age_lte = age_lte;
    age_gte = age_gte;
  })
