-- ===== src/Models/EnumLaws/Text.antt =====
-- The texts of the enumerations: `Serialize` and `Parse` of a plain text.
use pawspective_backend.Base.{String, ◌≡◌, refl, ◌↔◌, arith, eq_iff, text_Eq}
use pawspective_backend.Errors.{ok, ok-at_equal}
use pawspective_backend.Models.Enums.{
  AnimalSize, AnimalGender, CareLevel, GoodWith, AnimalColor, AnimalStatus, AnimalType, EnumKind,
  Enum, size, gender, care_level, good_with, color, status, animal_type,
}
use pawspective_backend.Models.EnumText.{
  serialize_size, parse_string_size, serialize_gender, parse_string_gender, serialize_care_level,
  parse_string_care_level, serialize_good_with, parse_string_good_with, serialize_color,
  parse_string_color, serialize_status, parse_string_status, serialize_animal_type,
  parse_string_animal_type, serialize, parse_string,
}
use pawspective_backend.Models.EnumLaws.{chain-step}

parse_string-serialize_size :
    (v : AnimalSize) (s : String) → serialize_size v ≡ ok s → parse_string_size s ≡ ok v
unfolding parse_string_size serialize_size
parse_string-serialize_size AnimalSize.small s h =
    ok-at_equal parse_string_size AnimalSize.small "small" s refl h
parse_string-serialize_size AnimalSize.medium s h =
    ok-at_equal parse_string_size AnimalSize.medium "medium" s refl h
parse_string-serialize_size AnimalSize.large s h =
    ok-at_equal parse_string_size AnimalSize.large "large" s refl h
parse_string-serialize_size AnimalSize.unspecified s h = ground arith

serialize-parse_string_size :
    (v : AnimalSize) (s : String) → parse_string_size s ≡ ok v → serialize_size v ≡ ok s
unfolding parse_string_size serialize_size
serialize-parse_string_size v s h =
    ground (arith, eq_iff s "small", eq_iff s "medium", eq_iff s "large")

parse_string-serialize_gender :
    (v : AnimalGender) (s : String) → serialize_gender v ≡ ok s → parse_string_gender s ≡ ok v
unfolding parse_string_gender serialize_gender
parse_string-serialize_gender AnimalGender.male s h =
    ok-at_equal parse_string_gender AnimalGender.male "male" s refl h
parse_string-serialize_gender AnimalGender.female s h =
    ok-at_equal parse_string_gender AnimalGender.female "female" s refl h
parse_string-serialize_gender AnimalGender.unknown s h =
    ok-at_equal parse_string_gender AnimalGender.unknown "unknown" s refl h
parse_string-serialize_gender AnimalGender.unspecified s h = ground arith

serialize-parse_string_gender :
    (v : AnimalGender) (s : String) → parse_string_gender s ≡ ok v → serialize_gender v ≡ ok s
unfolding parse_string_gender serialize_gender
serialize-parse_string_gender v s h =
    ground (arith, eq_iff s "male", eq_iff s "female", eq_iff s "unknown")

parse_string-serialize_care_level :
    (v : CareLevel) (s : String) → serialize_care_level v ≡ ok s → parse_string_care_level s ≡ ok v
unfolding parse_string_care_level serialize_care_level
parse_string-serialize_care_level CareLevel.easy s h =
    ok-at_equal parse_string_care_level CareLevel.easy "easy" s refl h
parse_string-serialize_care_level CareLevel.moderate s h =
    ok-at_equal parse_string_care_level CareLevel.moderate "moderate" s refl h
parse_string-serialize_care_level CareLevel.difficult s h =
    ok-at_equal parse_string_care_level CareLevel.difficult "difficult" s refl h
parse_string-serialize_care_level CareLevel.special_needs s h =
    ok-at_equal parse_string_care_level CareLevel.special_needs "special_needs" s refl h
parse_string-serialize_care_level CareLevel.unspecified s h = ground arith

serialize-parse_string_care_level :
    (v : CareLevel) (s : String) → parse_string_care_level s ≡ ok v → serialize_care_level v ≡ ok s
unfolding parse_string_care_level serialize_care_level
serialize-parse_string_care_level v s h =
    ground
      (arith, eq_iff s "easy", eq_iff s "moderate", eq_iff s "difficult", eq_iff s "special_needs")

parse_string-serialize_good_with :
    (v : GoodWith) (s : String) → serialize_good_with v ≡ ok s → parse_string_good_with s ≡ ok v
unfolding parse_string_good_with serialize_good_with
parse_string-serialize_good_with GoodWith.dogs s h =
    ok-at_equal parse_string_good_with GoodWith.dogs "dogs" s refl h
parse_string-serialize_good_with GoodWith.cats s h =
    ok-at_equal parse_string_good_with GoodWith.cats "cats" s refl h
parse_string-serialize_good_with GoodWith.children s h =
    ok-at_equal parse_string_good_with GoodWith.children "children" s refl h
parse_string-serialize_good_with GoodWith.elderly s h =
    ok-at_equal parse_string_good_with GoodWith.elderly "elderly" s refl h
parse_string-serialize_good_with GoodWith.unspecified s h = ground arith

serialize-parse_string_good_with :
    (v : GoodWith) (s : String) → parse_string_good_with s ≡ ok v → serialize_good_with v ≡ ok s
unfolding parse_string_good_with serialize_good_with
serialize-parse_string_good_with v s h =
    ground (arith, eq_iff s "dogs", eq_iff s "cats", eq_iff s "children", eq_iff s "elderly")

parse_string-serialize_color :
    (v : AnimalColor) (s : String) → serialize_color v ≡ ok s → parse_string_color s ≡ ok v
unfolding parse_string_color serialize_color
parse_string-serialize_color AnimalColor.black s h =
    ok-at_equal parse_string_color AnimalColor.black "black" s refl h
parse_string-serialize_color AnimalColor.white s h =
    ok-at_equal parse_string_color AnimalColor.white "white" s refl h
parse_string-serialize_color AnimalColor.brown s h =
    ok-at_equal parse_string_color AnimalColor.brown "brown" s refl h
parse_string-serialize_color AnimalColor.grey s h =
    ok-at_equal parse_string_color AnimalColor.grey "grey" s refl h
parse_string-serialize_color AnimalColor.orange s h =
    ok-at_equal parse_string_color AnimalColor.orange "orange" s refl h
parse_string-serialize_color AnimalColor.cream s h =
    ok-at_equal parse_string_color AnimalColor.cream "cream" s refl h
parse_string-serialize_color AnimalColor.tan s h =
    ok-at_equal parse_string_color AnimalColor.tan "tan" s refl h
parse_string-serialize_color AnimalColor.golden s h =
    ok-at_equal parse_string_color AnimalColor.golden "golden" s refl h
parse_string-serialize_color AnimalColor.spotted s h =
    ok-at_equal parse_string_color AnimalColor.spotted "spotted" s refl h
parse_string-serialize_color AnimalColor.striped s h =
    ok-at_equal parse_string_color AnimalColor.striped "striped" s refl h
parse_string-serialize_color AnimalColor.brindle s h =
    ok-at_equal parse_string_color AnimalColor.brindle "brindle" s refl h
parse_string-serialize_color AnimalColor.mixed s h =
    ok-at_equal parse_string_color AnimalColor.mixed "mixed" s refl h
parse_string-serialize_color AnimalColor.unspecified s h = ground arith

serialize-parse_string_color :
    (v : AnimalColor) (s : String) → parse_string_color s ≡ ok v → serialize_color v ≡ ok s
unfolding parse_string_color serialize_color
serialize-parse_string_color v s = chain-step serialize_color s "black" AnimalColor.black v _ refl (
    chain-step serialize_color s "white" AnimalColor.white v _ refl (
      chain-step serialize_color s "brown" AnimalColor.brown v _ refl (
        chain-step serialize_color s "grey" AnimalColor.grey v _ refl (
          chain-step serialize_color s "orange" AnimalColor.orange v _ refl (
            chain-step serialize_color s "cream" AnimalColor.cream v _ refl (
              chain-step serialize_color s "tan" AnimalColor.tan v _ refl (
                chain-step serialize_color s "golden" AnimalColor.golden v _ refl (
                  chain-step serialize_color s "spotted" AnimalColor.spotted v _ refl (
                    chain-step serialize_color s "striped" AnimalColor.striped v _ refl (
                      chain-step serialize_color s "brindle" AnimalColor.brindle v _ refl (
                        chain-step serialize_color s "mixed" AnimalColor.mixed v _ refl
                          (λ h. cc))))))))))))

parse_string-serialize_status :
    (v : AnimalStatus) (s : String) → serialize_status v ≡ ok s → parse_string_status s ≡ ok v
unfolding parse_string_status serialize_status
parse_string-serialize_status AnimalStatus.available s h =
    ok-at_equal parse_string_status AnimalStatus.available "available" s refl h
parse_string-serialize_status AnimalStatus.adopted s h =
    ok-at_equal parse_string_status AnimalStatus.adopted "adopted" s refl h
parse_string-serialize_status AnimalStatus.unavailable s h =
    ok-at_equal parse_string_status AnimalStatus.unavailable "unavailable" s refl h
parse_string-serialize_status AnimalStatus.unspecified s h = ground arith

serialize-parse_string_status :
    (v : AnimalStatus) (s : String) → parse_string_status s ≡ ok v → serialize_status v ≡ ok s
unfolding parse_string_status serialize_status
serialize-parse_string_status v s h =
    ground (arith, eq_iff s "available", eq_iff s "adopted", eq_iff s "unavailable")

parse_string-serialize_animal_type :
    (v : AnimalType) (s : String)
    → serialize_animal_type v ≡ ok s
    → parse_string_animal_type s ≡ ok v
unfolding parse_string_animal_type serialize_animal_type
parse_string-serialize_animal_type AnimalType.dog s h =
    ok-at_equal parse_string_animal_type AnimalType.dog "dog" s refl h
parse_string-serialize_animal_type AnimalType.cat s h =
    ok-at_equal parse_string_animal_type AnimalType.cat "cat" s refl h
parse_string-serialize_animal_type AnimalType.other s h =
    ok-at_equal parse_string_animal_type AnimalType.other "other" s refl h
parse_string-serialize_animal_type AnimalType.unspecified s h = ground arith

serialize-parse_string_animal_type :
    (v : AnimalType) (s : String)
    → parse_string_animal_type s ≡ ok v
    → serialize_animal_type v ≡ ok s
unfolding parse_string_animal_type serialize_animal_type
serialize-parse_string_animal_type v s h =
    ground (arith, eq_iff s "dog", eq_iff s "cat", eq_iff s "other")

-- For each enumeration, `Parse` of a plain text gives a value exactly when `Serialize` writes that
-- value as that text.
pub parse_string-serialize_iff :
    (k : EnumKind) (v : Enum k) (s : String) → (parse_string k s ≡ ok v) ↔ (serialize k v ≡ ok s)
unfolding parse_string serialize
parse_string-serialize_iff size v s =
    (serialize-parse_string_size v s, parse_string-serialize_size v s)
parse_string-serialize_iff gender v s =
    (serialize-parse_string_gender v s, parse_string-serialize_gender v s)
parse_string-serialize_iff care_level v s =
    (serialize-parse_string_care_level v s, parse_string-serialize_care_level v s)
parse_string-serialize_iff good_with v s =
    (serialize-parse_string_good_with v s, parse_string-serialize_good_with v s)
parse_string-serialize_iff color v s =
    (serialize-parse_string_color v s, parse_string-serialize_color v s)
parse_string-serialize_iff status v s =
    (serialize-parse_string_status v s, parse_string-serialize_status v s)
parse_string-serialize_iff animal_type v s =
    (serialize-parse_string_animal_type v s, parse_string-serialize_animal_type v s)
