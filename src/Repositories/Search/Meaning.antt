-- ===== src/Repositories/Search/Meaning.antt =====
-- The animals that a search finds, in words of the filter instead of conditions on columns.
use pawspective_backend.Base.{
  ℤ, id_leb, String, Bool, true, false, ◌&&◌, Option, none, some, List, [], ◌∷◌, any,
}
use pawspective_backend.Errors.{Result, ok, err}
use pawspective_backend.Models.Enums.{
  EnumKind, Enum, AnimalType, enum_to_literal, size, gender, care_level, good_with, color, status,
  animal_type,
}
use pawspective_backend.Models.Records.{Animal, Breed, Organization, AnimalFilters}
use pawspective_backend.Db.Table.{find}
use pawspective_backend.Db.Tables.{Db, Breed-keyed, Organization-keyed}
use pawspective_backend.Repositories.Catalogue.{among, has_literal}

-- Two enumerators with the same literal.
abbrev pub same_literal : Result String → Result String → Bool
same_literal (ok text) r = has_literal text r
same_literal (err e) r = false

-- An empty list allows everything, a list allows its members; NULL is a member of no list.
abbrev pub allows : (k : EnumKind) → List (Enum k) → Option (Enum k) → Bool
allows k [] v = true
allows k (x ∷ values) none = false
allows k (x ∷ values) (some v) =
    any (λ u. same_literal (enum_to_literal k u) (enum_to_literal k v)) (x ∷ values)

abbrev pub allows_id : List ℤ → Option ℤ → Bool
allows_id [] i = true
allows_id (x ∷ ids) none = false
allows_id (x ∷ ids) (some i) = among (x ∷ ids) i

abbrev pub type_of : Option Breed → Option AnimalType
type_of none = none
type_of (some b) = some b.animal_type

abbrev pub city_id_of : Option Organization → Option ℤ
city_id_of none = none
city_id_of (some o) = some o.city_id

-- An animal meets each criterion of a filter.
abbrev pub meets : Db → AnimalFilters → Animal → Bool
meets db f a =
    allows_id f.breed_ids (some a.breed_id)
    && allows_id f.city_ids (city_id_of (find a.organization_id db.organizations))
    && allows animal_type f.animal_types (type_of (find a.breed_id db.breeds))
    && allows size f.sizes (some a.size)
    && allows gender f.genders (some a.gender)
    && allows care_level f.care_levels (some a.care_level)
    && allows color f.colors (some a.color)
    && allows good_with f.good_withs (some a.good_with)
    && allows status f.statuses (some a.status)
    && (id_leb f.min_age a.age && id_leb a.age f.max_age)
