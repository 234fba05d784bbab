-- ===== src/Models/EnumText.antt =====
-- models/src/animal_enums.cpp: each enumeration's Serialize and its two Parse overloads.
use pawspective_backend.Base.{String, if◌then◌else◌, ◌==◌, text_Eq}
use pawspective_backend.Errors.{Result, ok, err, json_exception, invalid_argument}
use pawspective_backend.Models.Enums.{
  AnimalSize, AnimalGender, CareLevel, GoodWith, AnimalColor, AnimalStatus, AnimalType, EnumKind,
  Enum, size, gender, care_level, good_with, color, status, animal_type,
}

unfoldable pub serialize_size : AnimalSize → Result String
serialize_size AnimalSize.small = ok "small"
serialize_size AnimalSize.medium = ok "medium"
serialize_size AnimalSize.large = ok "large"
serialize_size AnimalSize.unspecified = err json_exception

unfoldable pub parse_size : String → Result AnimalSize
parse_size str =
    if str == "small"
    then ok AnimalSize.small
    else if str == "medium"
    then ok AnimalSize.medium
    else if str == "large"
    then ok AnimalSize.large
    else err json_exception

unfoldable pub parse_string_size : String → Result AnimalSize
parse_string_size str =
    if str == "small"
    then ok AnimalSize.small
    else if str == "medium"
    then ok AnimalSize.medium
    else if str == "large"
    then ok AnimalSize.large
    else err invalid_argument

unfoldable pub serialize_gender : AnimalGender → Result String
serialize_gender AnimalGender.male = ok "male"
serialize_gender AnimalGender.female = ok "female"
serialize_gender AnimalGender.unknown = ok "unknown"
serialize_gender AnimalGender.unspecified = err json_exception

unfoldable pub parse_gender : String → Result AnimalGender
parse_gender str =
    if str == "male"
    then ok AnimalGender.male
    else if str == "female"
    then ok AnimalGender.female
    else if str == "unknown"
    then ok AnimalGender.unknown
    else err json_exception

unfoldable pub parse_string_gender : String → Result AnimalGender
parse_string_gender str =
    if str == "male"
    then ok AnimalGender.male
    else if str == "female"
    then ok AnimalGender.female
    else if str == "unknown"
    then ok AnimalGender.unknown
    else err invalid_argument

unfoldable pub serialize_care_level : CareLevel → Result String
serialize_care_level CareLevel.easy = ok "easy"
serialize_care_level CareLevel.moderate = ok "moderate"
serialize_care_level CareLevel.difficult = ok "difficult"
serialize_care_level CareLevel.special_needs = ok "special_needs"
serialize_care_level CareLevel.unspecified = err json_exception

unfoldable pub parse_care_level : String → Result CareLevel
parse_care_level str =
    if str == "easy"
    then ok CareLevel.easy
    else if str == "moderate"
    then ok CareLevel.moderate
    else if str == "difficult"
    then ok CareLevel.difficult
    else if str == "special_needs"
    then ok CareLevel.special_needs
    else err json_exception

unfoldable pub parse_string_care_level : String → Result CareLevel
parse_string_care_level str =
    if str == "easy"
    then ok CareLevel.easy
    else if str == "moderate"
    then ok CareLevel.moderate
    else if str == "difficult"
    then ok CareLevel.difficult
    else if str == "special_needs"
    then ok CareLevel.special_needs
    else err invalid_argument

unfoldable pub serialize_good_with : GoodWith → Result String
serialize_good_with GoodWith.dogs = ok "dogs"
serialize_good_with GoodWith.cats = ok "cats"
serialize_good_with GoodWith.children = ok "children"
serialize_good_with GoodWith.elderly = ok "elderly"
serialize_good_with GoodWith.unspecified = err json_exception

unfoldable pub parse_good_with : String → Result GoodWith
parse_good_with str =
    if str == "dogs"
    then ok GoodWith.dogs
    else if str == "cats"
    then ok GoodWith.cats
    else if str == "children"
    then ok GoodWith.children
    else if str == "elderly"
    then ok GoodWith.elderly
    else err json_exception

unfoldable pub parse_string_good_with : String → Result GoodWith
parse_string_good_with str =
    if str == "dogs"
    then ok GoodWith.dogs
    else if str == "cats"
    then ok GoodWith.cats
    else if str == "children"
    then ok GoodWith.children
    else if str == "elderly"
    then ok GoodWith.elderly
    else err invalid_argument

unfoldable pub serialize_color : AnimalColor → Result String
serialize_color AnimalColor.black = ok "black"
serialize_color AnimalColor.white = ok "white"
serialize_color AnimalColor.brown = ok "brown"
serialize_color AnimalColor.grey = ok "grey"
serialize_color AnimalColor.orange = ok "orange"
serialize_color AnimalColor.cream = ok "cream"
serialize_color AnimalColor.tan = ok "tan"
serialize_color AnimalColor.golden = ok "golden"
serialize_color AnimalColor.spotted = ok "spotted"
serialize_color AnimalColor.striped = ok "striped"
serialize_color AnimalColor.brindle = ok "brindle"
serialize_color AnimalColor.mixed = ok "mixed"
serialize_color AnimalColor.unspecified = err json_exception

unfoldable pub parse_color : String → Result AnimalColor
parse_color str =
    if str == "black"
    then ok AnimalColor.black
    else if str == "white"
    then ok AnimalColor.white
    else if str == "brown"
    then ok AnimalColor.brown
    else if str == "grey"
    then ok AnimalColor.grey
    else if str == "orange"
    then ok AnimalColor.orange
    else if str == "cream"
    then ok AnimalColor.cream
    else if str == "tan"
    then ok AnimalColor.tan
    else if str == "golden"
    then ok AnimalColor.golden
    else if str == "spotted"
    then ok AnimalColor.spotted
    else if str == "striped"
    then ok AnimalColor.striped
    else if str == "brindle"
    then ok AnimalColor.brindle
    else if str == "mixed"
    then ok AnimalColor.mixed
    else err json_exception

unfoldable pub parse_string_color : String → Result AnimalColor
parse_string_color str =
    if str == "black"
    then ok AnimalColor.black
    else if str == "white"
    then ok AnimalColor.white
    else if str == "brown"
    then ok AnimalColor.brown
    else if str == "grey"
    then ok AnimalColor.grey
    else if str == "orange"
    then ok AnimalColor.orange
    else if str == "cream"
    then ok AnimalColor.cream
    else if str == "tan"
    then ok AnimalColor.tan
    else if str == "golden"
    then ok AnimalColor.golden
    else if str == "spotted"
    then ok AnimalColor.spotted
    else if str == "striped"
    then ok AnimalColor.striped
    else if str == "brindle"
    then ok AnimalColor.brindle
    else if str == "mixed"
    then ok AnimalColor.mixed
    else err invalid_argument

unfoldable pub serialize_status : AnimalStatus → Result String
serialize_status AnimalStatus.available = ok "available"
serialize_status AnimalStatus.adopted = ok "adopted"
serialize_status AnimalStatus.unavailable = ok "unavailable"
serialize_status AnimalStatus.unspecified = err json_exception

unfoldable pub parse_status : String → Result AnimalStatus
parse_status str =
    if str == "available"
    then ok AnimalStatus.available
    else if str == "adopted"
    then ok AnimalStatus.adopted
    else if str == "unavailable"
    then ok AnimalStatus.unavailable
    else err json_exception

unfoldable pub parse_string_status : String → Result AnimalStatus
parse_string_status str =
    if str == "available"
    then ok AnimalStatus.available
    else if str == "adopted"
    then ok AnimalStatus.adopted
    else if str == "unavailable"
    then ok AnimalStatus.unavailable
    else err invalid_argument

unfoldable pub serialize_animal_type : AnimalType → Result String
serialize_animal_type AnimalType.dog = ok "dog"
serialize_animal_type AnimalType.cat = ok "cat"
serialize_animal_type AnimalType.other = ok "other"
serialize_animal_type AnimalType.unspecified = err json_exception

unfoldable pub parse_animal_type : String → Result AnimalType
parse_animal_type str =
    if str == "dog"
    then ok AnimalType.dog
    else if str == "cat"
    then ok AnimalType.cat
    else if str == "other"
    then ok AnimalType.other
    else err json_exception

unfoldable pub parse_string_animal_type : String → Result AnimalType
parse_string_animal_type str =
    if str == "dog"
    then ok AnimalType.dog
    else if str == "cat"
    then ok AnimalType.cat
    else if str == "other"
    then ok AnimalType.other
    else err invalid_argument

unfoldable pub serialize : (k : EnumKind) → Enum k → Result String
unfolding serialize_size serialize_gender serialize_care_level serialize_good_with serialize_color
    serialize_status serialize_animal_type
serialize size x = serialize_size x
serialize gender x = serialize_gender x
serialize care_level x = serialize_care_level x
serialize good_with x = serialize_good_with x
serialize color x = serialize_color x
serialize status x = serialize_status x
serialize animal_type x = serialize_animal_type x

unfoldable pub parse : (k : EnumKind) → String → Result (Enum k)
unfolding parse_size parse_gender parse_care_level parse_good_with parse_color parse_status
    parse_animal_type
parse size x = parse_size x
parse gender x = parse_gender x
parse care_level x = parse_care_level x
parse good_with x = parse_good_with x
parse color x = parse_color x
parse status x = parse_status x
parse animal_type x = parse_animal_type x

unfoldable pub parse_string : (k : EnumKind) → String → Result (Enum k)
unfolding parse_string_size parse_string_gender parse_string_care_level parse_string_good_with
    parse_string_color parse_string_status parse_string_animal_type
parse_string size x = parse_string_size x
parse_string gender x = parse_string_gender x
parse_string care_level x = parse_string_care_level x
parse_string good_with x = parse_string_good_with x
parse_string color x = parse_string_color x
parse_string status x = parse_string_status x
parse_string animal_type x = parse_string_animal_type x
