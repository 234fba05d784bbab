-- ===== src/Repositories/Search/Conditions.antt =====
-- The conditions that a filter gives hold of the animals that meet it.
use pawspective_backend.Base.{
  ℤ, id_leb, ◌≡◌, refl, sym, ◌∙◌, ap, String, Bool, true, false, ◌&&◌, Option, none, some, List, [],
  ◌∷◌, ◌++◌, all, any, Bool-cases, inl, inr,
}
use pawspective_backend.Errors.{Result, ok, Result-cases, ◌>>=◌}
use pawspective_backend.Models.Enums.{
  EnumKind, Enum, enum_to_literal, size, gender, care_level, good_with, color, status, animal_type,
}
use pawspective_backend.Models.Records.{Animal, Breed, Organization, AnimalFilters}
use pawspective_backend.Db.Table.{find}
use pawspective_backend.Db.Tables.{Db, Breed-keyed, Organization-keyed}
use pawspective_backend.Sql.Builder.{Op, numbers, texts, Condition, condition_any, get_column_name}
use pawspective_backend.Repositories.Catalogue.{has_literal}
use pawspective_backend.Repositories.Search.{
  enums_to_literals, add_any_enum, add_any_ids, build_conditions,
}
use pawspective_backend.Repositories.Search.Select.{
  Cell, integer, literal, null, breed_type, city_of, compares, holds,
}
use pawspective_backend.Repositories.Search.Clauses.{specified, filter_specified}
use pawspective_backend.Repositories.Search.Meaning.{
  same_literal, allows, allows_id, type_of, city_id_of, meets,
}

-- The conditions of a result hold of the animals that `p` chooses.
abbrev pub Means : (Db → Animal → Bool) → Result (List Condition) → Type 0
Means p r =
    (conditions : List Condition) × (r ≡ ok conditions)
    × ((db : Db) (a : Animal) → all (holds db a) conditions ≡ p db a)

all-append :
    {A : Type 0} (p : A → Bool) (xs ys : List A) → all p (xs ++ ys) ≡ (all p xs && all p ys)
all-append p [] ys = refl
all-append p (x ∷ xs) ys = elim (Bool-cases (p x)) [
  | inl yes_x ↦ rw (yes_x, all-append p xs ys) refl
  | inr no_x ↦ rw no_x refl
]

and_true : (b : Bool) → b ≡ (b && true)
and_true true = refl
and_true false = refl

abbrev SameMembers : (k : EnumKind) → List (Enum k) → List String → Type 0
SameMembers k values literals =
    (r : Result String)
    → any (λ s. has_literal s r) literals ≡ any (λ u. same_literal (enum_to_literal k u) r) values

literals_of :
    (k : EnumKind) (values : List (Enum k))
    → specified k values ≡ true
    → (literals : List String) × (enums_to_literals k values ≡ ok literals)
      × SameMembers k values literals
unfolding enums_to_literals
literals_of k [] h = ([], refl, λ r. refl)
literals_of k (v ∷ values) h = elim (Result-cases (enum_to_literal k v)) [
  | inl (first, e) ↦
      let tail : specified k values ≡ true = rw e at h in
      let (rest, found, same) = literals_of k values tail in
      (first ∷ rest, rw (e, found) refl, λ r. rw (e, same r) refl)
  | inr (x, e) ↦ let absurdity : false ≡ true = rw e at h in cc
]

-- The cell of a column of enumerators.
abbrev opt_cell : (k : EnumKind) → Option (Enum k) → Cell
opt_cell k none = null
opt_cell k (some v) = literal (enum_to_literal k v)

abbrev opt_integer : Option ℤ → Cell
opt_integer none = null
opt_integer (some i) = integer i

any-allows :
    (k : EnumKind) (v : Enum k) (values : List (Enum k)) (literals : List String)
    → SameMembers k (v ∷ values) literals
    → (x : Option (Enum k))
    → compares Op.any (texts literals) (opt_cell k x) ≡ allows k (v ∷ values) x
any-allows k v values literals same none = refl
any-allows k v values literals same (some x) = same (enum_to_literal k x)

any-allows_id :
    (j : ℤ) (ids : List ℤ) (x : Option ℤ)
    → compares Op.any (numbers (j ∷ ids)) (opt_integer x) ≡ allows_id (j ∷ ids) x
any-allows_id j ids none = refl
any-allows_id j ids (some i) = refl

abbrev Chooses : (Db → Animal → Bool) → List Condition → Type 0
Chooses p conditions = (db : Db) (a : Animal) → all (holds db a) conditions ≡ p db a

-- A condition over a column is added.
Chooses-append :
    (p q : Db → Animal → Bool) (conditions : List Condition) (c : Condition)
    → Chooses p conditions
    → ((db : Db) (a : Animal) → holds db a c ≡ q db a)
    → Chooses (λ db a. p db a && q db a) (conditions ++ c ∷ [])
Chooses-append p q conditions c h k db a =
    all-append (holds db a) conditions (c ∷ [])
    ∙ rw (h db a, k db a) (ap (λ b. p db a && b) (sym (and_true (q db a))))

add_any_enum-Means :
    (k : EnumKind) (key : String) (values : List (Enum k)) (get : Db → Animal → Option (Enum k))
    (p : Db → Animal → Bool) (conditions : List Condition)
    → specified k values ≡ true
    → ((literals : List String) (db : Db) (a : Animal)
        → holds db a (condition_any key (texts literals))
          ≡ compares Op.any (texts literals) (opt_cell k (get db a)))
    → Chooses p conditions
    → Means (λ db a. p db a && allows k values (get db a)) (add_any_enum k key values conditions)
unfolding add_any_enum
add_any_enum-Means k key [] get p conditions s field h =
    (conditions, refl, λ db a. h db a ∙ and_true (p db a))
add_any_enum-Means k key (v ∷ values) get p conditions s field h =
    let (literals, e, same) = literals_of k (v ∷ values) s in
    (
      conditions ++ condition_any key (texts literals) ∷ [],
      rw e refl,
      Chooses-append p (λ db a. allows k (v ∷ values) (get db a)) conditions _ h
          (λ db a. field literals db a ∙ any-allows k v values literals same (get db a)),
    )

add_any_ids-Chooses :
    (key : String) (ids : List ℤ) (get : Db → Animal → Option ℤ) (p : Db → Animal → Bool)
    (conditions : List Condition)
    → ((numerals : List ℤ) (db : Db) (a : Animal)
        → holds db a (condition_any key (numbers numerals))
          ≡ compares Op.any (numbers numerals) (opt_integer (get db a)))
    → Chooses p conditions
    → Chooses (λ db a. p db a && allows_id ids (get db a)) (add_any_ids key ids conditions)
add_any_ids-Chooses key [] get p conditions field h = λ db a. h db a ∙ and_true (p db a)
add_any_ids-Chooses key (i ∷ ids) get p conditions field h =
    Chooses-append p (λ db a. allows_id (i ∷ ids) (get db a)) conditions _ h
      (λ db a. field (i ∷ ids) db a ∙ any-allows_id i ids (get db a))

Means-bind :
    (p q : Db → Animal → Bool) (r : Result (List Condition))
    (f : List Condition → Result (List Condition))
    → Means p r
    → ((conditions : List Condition) → Chooses p conditions → Means q (f conditions))
    → Means q (r >>= f)
Means-bind p q r f h k = let (conditions, e, same) = h in rw e (k conditions same)

and-parts : (b c : Bool) → (b && c) ≡ true → (b ≡ true) × (c ≡ true)
and-parts true c h = (refl, h)
and-parts false c h = cc

city_cell :
    (literals : List ℤ) (o : Option Organization)
    → compares Op.any (numbers literals) (city_of o)
      ≡ compares Op.any (numbers literals) (opt_integer (city_id_of o))
city_cell literals none = refl
city_cell literals (some o) = refl

type_cell :
    (literals : List String) (b : Option Breed)
    → compares Op.any (texts literals) (breed_type b)
      ≡ compares Op.any (texts literals) (opt_cell animal_type (type_of b))
type_cell literals none = refl
type_cell literals (some b) = refl

pub build_conditions-Means :
    (f : AnimalFilters)
    → filter_specified f ≡ true
    → Means (λ db a. meets db f a) (build_conditions f)
unfolding build_conditions get_column_name
build_conditions-Means f h =
    let (s1, h1) = and-parts _ _ h in
    let (s2, h2) = and-parts _ _ h1 in
    let (s3, h3) = and-parts _ _ h2 in
    let (s4, h4) = and-parts _ _ h3 in
    let (s5, h5) = and-parts _ _ h4 in
    let (s6, h6) = and-parts _ _ h5 in
    let (s7, h7) = and-parts _ _ h6 in
    let breeds =
      add_any_ids-Chooses "breeds" f.breed_ids (λ db a. some a.breed_id) (λ db a. true) []
        (λ n db a. refl) (λ db a. refl) in
    let cities =
      add_any_ids-Chooses "cityIds" f.city_ids
        (λ db a. city_id_of (find a.organization_id db.organizations)) _ _
        (λ n db a. city_cell n (find a.organization_id db.organizations)) breeds in
    Means-bind _ _ _ _
      (add_any_enum-Means animal_type "animalTypes" f.animal_types
        (λ db a. type_of (find a.breed_id db.breeds)) _ _ s1
        (λ n db a. type_cell n (find a.breed_id db.breeds)) cities)
      λ c1 m1.
        Means-bind _ _ _ _
          (add_any_enum-Means size "sizes" f.sizes (λ db a. some a.size) _ c1 s2 (λ n db a. refl)
            m1)
          λ c2 m2.
            Means-bind _ _ _ _
              (add_any_enum-Means gender "genders" f.genders (λ db a. some a.gender) _ c2 s3
                (λ n db a. refl) m2)
              λ c3 m3.
                Means-bind _ _ _ _
                  (add_any_enum-Means care_level "careLevels" f.care_levels
                    (λ db a. some a.care_level) _ c3 s4 (λ n db a. refl) m3)
                  λ c4 m4.
                    Means-bind _ _ _ _
                      (add_any_enum-Means color "colors" f.colors (λ db a. some a.color) _ c4 s5
                        (λ n db a. refl) m4)
                      λ c5 m5.
                        Means-bind _ _ _ _
                          (add_any_enum-Means good_with "goodWiths" f.good_withs
                            (λ db a. some a.good_with) _ c5 s6 (λ n db a. refl) m5)
                          λ c6 m6.
                            Means-bind _ _ _ _
                              (add_any_enum-Means status "statuses" f.statuses
                                (λ db a. some a.status) _ c6 s7 (λ n db a. refl) m6)
                              λ c7 m7. (
                                _,
                                refl,
                                λ db a.
                                    all-append (holds db a) c7 _
                                    ∙ rw (m7 db a, sym (and_true (id_leb a.age f.max_age))) refl,
                              )
