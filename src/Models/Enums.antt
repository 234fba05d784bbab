-- ===== src/Models/Enums.antt =====
-- models/include/animal_enums.hpp: the enumerations of an animal, with their PostgreSQL literals.
use pawspective_backend.Base.{String}
use pawspective_backend.Errors.{Result, ok, err, runtime_error}

pub data AnimalSize : Type 0 where
  unspecified small medium large : AnimalSize

pub data AnimalGender : Type 0 where
  unspecified male female unknown : AnimalGender

pub data CareLevel : Type 0 where
  unspecified easy moderate difficult special_needs : CareLevel

pub data GoodWith : Type 0 where
  unspecified dogs cats children elderly : GoodWith

pub data AnimalColor : Type 0 where
  unspecified black white brown grey orange cream : AnimalColor
  tan golden spotted striped brindle mixed : AnimalColor

pub data AnimalStatus : Type 0 where
  unspecified available adopted unavailable : AnimalStatus

pub data AnimalType : Type 0 where
  unspecified dog cat other : AnimalType

-- The seven enumerations as one family.
pub data EnumKind : Type 0 where
  size gender care_level good_with color status animal_type : EnumKind

abbrev pub Enum : EnumKind → Type 0
Enum size = AnimalSize
Enum gender = AnimalGender
Enum care_level = CareLevel
Enum good_with = GoodWith
Enum color = AnimalColor
Enum status = AnimalStatus
Enum animal_type = AnimalType

unfoldable pub size_literal : AnimalSize → Result String
size_literal AnimalSize.unspecified = err runtime_error
size_literal AnimalSize.small = ok "small"
size_literal AnimalSize.medium = ok "medium"
size_literal AnimalSize.large = ok "large"

unfoldable pub gender_literal : AnimalGender → Result String
gender_literal AnimalGender.unspecified = err runtime_error
gender_literal AnimalGender.male = ok "male"
gender_literal AnimalGender.female = ok "female"
gender_literal AnimalGender.unknown = ok "unknown"

unfoldable pub care_level_literal : CareLevel → Result String
care_level_literal CareLevel.unspecified = err runtime_error
care_level_literal CareLevel.easy = ok "easy"
care_level_literal CareLevel.moderate = ok "moderate"
care_level_literal CareLevel.difficult = ok "difficult"
care_level_literal CareLevel.special_needs = ok "special_needs"

unfoldable pub good_with_literal : GoodWith → Result String
good_with_literal GoodWith.unspecified = err runtime_error
good_with_literal GoodWith.dogs = ok "dogs"
good_with_literal GoodWith.cats = ok "cats"
good_with_literal GoodWith.children = ok "children"
good_with_literal GoodWith.elderly = ok "elderly"

unfoldable pub color_literal : AnimalColor → Result String
color_literal AnimalColor.unspecified = err runtime_error
color_literal AnimalColor.black = ok "black"
color_literal AnimalColor.white = ok "white"
color_literal AnimalColor.brown = ok "brown"
color_literal AnimalColor.grey = ok "grey"
color_literal AnimalColor.orange = ok "orange"
color_literal AnimalColor.cream = ok "cream"
color_literal AnimalColor.tan = ok "tan"
color_literal AnimalColor.golden = ok "golden"
color_literal AnimalColor.spotted = ok "spotted"
color_literal AnimalColor.striped = ok "striped"
color_literal AnimalColor.brindle = ok "brindle"
color_literal AnimalColor.mixed = ok "mixed"

unfoldable pub status_literal : AnimalStatus → Result String
status_literal AnimalStatus.unspecified = err runtime_error
status_literal AnimalStatus.available = ok "available"
status_literal AnimalStatus.adopted = ok "adopted"
status_literal AnimalStatus.unavailable = ok "unavailable"

unfoldable pub animal_type_literal : AnimalType → Result String
animal_type_literal AnimalType.unspecified = err runtime_error
animal_type_literal AnimalType.dog = ok "dog"
animal_type_literal AnimalType.cat = ok "cat"
animal_type_literal AnimalType.other = ok "other"

unfoldable pub enum_to_literal : (k : EnumKind) → Enum k → Result String
unfolding size_literal gender_literal care_level_literal good_with_literal color_literal
    status_literal animal_type_literal
enum_to_literal size v = size_literal v
enum_to_literal gender v = gender_literal v
enum_to_literal care_level v = care_level_literal v
enum_to_literal good_with v = good_with_literal v
enum_to_literal color v = color_literal v
enum_to_literal status v = status_literal v
enum_to_literal animal_type v = animal_type_literal v
