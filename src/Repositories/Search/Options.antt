-- ===== src/Repositories/Search/Options.antt =====
-- AnimalRepository::GetAvailableFilters. The values of SELECT DISTINCT, whose order PostgreSQL leaves
-- open, come in the order of their last rows.
use pawspective_backend.Base.{ℤ, pos, String, id_leb, List, [], ◌∷◌, map, if◌then◌else◌}
use pawspective_backend.Errors.{Result, ok, ◌>>=◌}
use pawspective_backend.Models.Enums.{
  EnumKind, Enum, size, gender, care_level, good_with, color, status, animal_type,
}
use pawspective_backend.Models.EnumText.{parse_string}
use pawspective_backend.Models.Records.{Animal, Breed, AnimalFilters}
use pawspective_backend.Db.Table.{find}
use pawspective_backend.Db.Tables.{Db, Organization-keyed}
use pawspective_backend.Exec.{Exec}
use pawspective_backend.Repositories.Catalogue.{among}
use pawspective_backend.Repositories.Search.Select.{Cell, integer, city_of}

-- enum_range(NULL::type), as the schema declares the type
abbrev enum_range : EnumKind → List String
enum_range size = "small" ∷ "medium" ∷ "large" ∷ []
enum_range gender = "male" ∷ "female" ∷ "unknown" ∷ []
enum_range care_level = "easy" ∷ "moderate" ∷ "difficult" ∷ "special_needs" ∷ []
enum_range good_with = "dogs" ∷ "cats" ∷ "children" ∷ "elderly" ∷ []
enum_range color =
    "black" ∷ "white" ∷ "brown" ∷ "grey" ∷ "orange" ∷ "cream" ∷ "tan" ∷ "golden" ∷ "spotted"
    ∷ "striped" ∷ "brindle" ∷ "mixed" ∷ []
enum_range status = "available" ∷ "adopted" ∷ "unavailable" ∷ []
enum_range animal_type = "dog" ∷ "cat" ∷ "other" ∷ []

unfoldable pub to_enum_vector : (k : EnumKind) → List String → Result (List (Enum k))
to_enum_vector k [] = ok []
to_enum_vector k (s ∷ strings) = do
  value ← parse_string k s
  enums ← to_enum_vector k strings
  ok (value ∷ enums)

-- SELECT DISTINCT
unfoldable pub distinct : List ℤ → List ℤ
distinct [] = []
distinct (i ∷ ids) = let rest = distinct ids in if among rest i then rest else i ∷ rest

-- The city of an animal's organization, where the join has a row.
abbrev with_city : Cell → List ℤ → List ℤ
with_city (integer i) ids = i ∷ ids
with_city _ ids = ids

unfoldable pub cities_of : Db → List Animal → List ℤ
cities_of db [] = []
cities_of db (a ∷ animals) =
    with_city (city_of (find a.organization_id db.organizations)) (cities_of db animals)

-- COALESCE(MIN(age), 0) and COALESCE(MAX(age), 100)
unfoldable pub least_age : List Animal → ℤ
least_age [] = pos 0
least_age (a ∷ []) = a.age
least_age (a ∷ b ∷ animals) =
    let rest = least_age (b ∷ animals) in if id_leb a.age rest then a.age else rest

unfoldable pub greatest_age : List Animal → ℤ
greatest_age [] = pos 100
greatest_age (a ∷ []) = a.age
greatest_age (a ∷ b ∷ animals) =
    let rest = greatest_age (b ∷ animals) in if id_leb rest a.age then a.age else rest

abbrev available : Db → Result AnimalFilters
available db = do
  animal_types ← to_enum_vector animal_type (enum_range animal_type)
  sizes ← to_enum_vector size (enum_range size)
  genders ← to_enum_vector gender (enum_range gender)
  care_levels ← to_enum_vector care_level (enum_range care_level)
  colors ← to_enum_vector color (enum_range color)
  good_withs ← to_enum_vector good_with (enum_range good_with)
  statuses ← to_enum_vector status (enum_range status)
  ok (record {
    breed_ids = distinct (map (λ (b : Breed). b.id) db.breeds);
    city_ids = distinct (cities_of db db.animals);
    animal_types = animal_types;
    sizes = sizes;
    genders = genders;
    care_levels = care_levels;
    colors = colors;
    good_withs = good_withs;
    statuses = statuses;
    min_age = least_age db.animals;
    max_age = greatest_age db.animals;
  })

unfoldable pub get_available_filters : Exec AnimalFilters
unfolding to_enum_vector distinct cities_of least_age greatest_age
get_available_filters w = (available w.db, w)
