-- ===== src/Models/FilterOptions.antt =====
-- models/src/animal_filters.cpp: AnimalFilters::to_dto.
use pawspective_backend.Base.{List, [], ◌∷◌, Bool, true, false, some, if◌then◌else◌}
use pawspective_backend.Models.Enums.{
  AnimalSize, AnimalGender, CareLevel, GoodWith, AnimalColor, AnimalStatus, AnimalType, EnumKind,
  Enum, size, gender, care_level, good_with, color, status, animal_type,
}
use pawspective_backend.Models.Records.{AnimalFilters}
use pawspective_backend.Models.Dto.{AnimalFilterDto}

-- value == T::kUnspecified
abbrev is_unspecified : (k : EnumKind) → Enum k → Bool
is_unspecified size AnimalSize.unspecified = true
is_unspecified gender AnimalGender.unspecified = true
is_unspecified care_level CareLevel.unspecified = true
is_unspecified good_with GoodWith.unspecified = true
is_unspecified color AnimalColor.unspecified = true
is_unspecified status AnimalStatus.unspecified = true
is_unspecified animal_type AnimalType.unspecified = true
is_unspecified _ _ = false

unfoldable pub filter_unspecified : (k : EnumKind) → List (Enum k) → List (Enum k)
filter_unspecified k [] = []
filter_unspecified k (v ∷ values) =
    let rest = filter_unspecified k values in if is_unspecified k v then rest else v ∷ rest

unfoldable pub filters_to_dto : AnimalFilters → AnimalFilterDto
unfolding filter_unspecified
filters_to_dto model = record {
  breeds = some model.breed_ids;
  city_ids = some model.city_ids;
  animal_types = some (filter_unspecified animal_type model.animal_types);
  sizes = some (filter_unspecified size model.sizes);
  genders = some (filter_unspecified gender model.genders);
  care_levels = some (filter_unspecified care_level model.care_levels);
  colors = some (filter_unspecified color model.colors);
  good_withs = some (filter_unspecified good_with model.good_withs);
  statuses = some (filter_unspecified status model.statuses);
  age_lte = some model.max_age;
  age_gte = some model.min_age;
}
