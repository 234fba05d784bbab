-- ===== src/Repositories/Search/Clauses.antt =====
-- When the clauses of a search are built.
use pawspective_backend.Base.{
  ℕ, suc, ◌*◌, ℤ, pos, ◌≡◌, refl, sym, ◌∙◌, String, Bool, true, false, ◌&&◌, none, some, List, [],
  ◌∷◌, ◌++◌, all, arith, if◌then◌else◌,
}
use pawspective_backend.Errors.{Result, ok, err, is_ok, ◌>>=◌, runtime_error}
use pawspective_backend.Models.Enums.{
  EnumKind, Enum, enum_to_literal, size, gender, care_level, good_with, color, status, animal_type,
}
use pawspective_backend.Models.Records.{AnimalFilters}
use pawspective_backend.Sql.Builder.{
  texts, Condition, condition_any, build_query_clause, QueryClause,
}
use pawspective_backend.Sql.Builder.Whitelist.{
  listed, conditions_listed, thrown, build_query_clause-whitelist,
}
use pawspective_backend.Repositories.Paging.{to_int32}
use pawspective_backend.Repositories.Search.{
  filter_whitelist, enums_to_literals, add_any_enum, add_any_ids, build_conditions, count_filter,
  data_filter, search_clauses,
}

-- No value of the list is `kUnspecified`.
abbrev pub specified : (k : EnumKind) → List (Enum k) → Bool
specified k values = all (λ v. is_ok (enum_to_literal k v)) values

abbrev pub filter_specified : AnimalFilters → Bool
filter_specified f =
    specified animal_type f.animal_types
    && (specified size f.sizes
        && (specified gender f.genders
            && (specified care_level f.care_levels
                && (specified color f.colors
                    && (specified good_with f.good_withs
                        && (specified status f.statuses && true))))))

abbrev AllListed : List Condition → Type 0
AllListed conditions = conditions_listed filter_whitelist.filter_fields conditions ≡ true

-- Conditions over listed fields, or the exception of an enumerator without a literal.
abbrev Built : Bool → Result (List Condition) → Type 0
Built true r = (conditions : List Condition) × (r ≡ ok conditions) × AllListed conditions
Built false r = r ≡ err runtime_error

Built-bind :
    (b c : Bool) (r : Result (List Condition)) (f : List Condition → Result (List Condition))
    → Built b r
    → ((conditions : List Condition) → AllListed conditions → Built c (f conditions))
    → Built (b && c) (r >>= f)
Built-bind true c r f h k = let (conditions, e, l) = h in rw e (k conditions l)
Built-bind false c r f h k = rw h refl

all-append :
    {A : Type 0} (p : A → Bool) (xs ys : List A)
    → all p xs ≡ true
    → all p ys ≡ true
    → all p (xs ++ ys) ≡ true
all-append p [] ys h k = k
all-append p (x ∷ xs) ys h k = ground (arith, all-append p xs ys)

literal_err :
    (k : EnumKind) (v : Enum k)
    → is_ok (enum_to_literal k v) ≡ false
    → enum_to_literal k v ≡ err runtime_error
unfolding enum_to_literal
literal_err size v h = ground arith
literal_err gender v h = ground arith
literal_err care_level v h = ground arith
literal_err good_with v h = ground arith
literal_err color v h = ground arith
literal_err status v h = ground arith
literal_err animal_type v h = ground arith

abbrev Literals : Bool → Result (List String) → Type 0
Literals true r = (literals : List String) × (r ≡ ok literals)
Literals false r = r ≡ err runtime_error

enums_to_literals_ends :
    (k : EnumKind) (values : List (Enum k))
    → Literals (specified k values) (enums_to_literals k values)
unfolding enums_to_literals
enums_to_literals_ends k [] = ([], refl)
enums_to_literals_ends k (v ∷ values) =
    go (enum_to_literal k v) refl (specified k values) (enums_to_literals_ends k values)
  where
    go :
        (first : Result String)
        → enum_to_literal k v ≡ first
        → (b : Bool) → Literals b (enums_to_literals k values)
        → Literals
            (is_ok first && b)
            (first >>= λ literal. enums_to_literals k values >>= λ result. ok (literal ∷ result))
    go (ok literal) e true h = let (rest, found) = h in (literal ∷ rest, rw found refl)
    go (ok literal) e false h = rw h refl
    go (err x) e b h = let same = sym e ∙ literal_err k v (rw e refl) in cc

-- A condition over a listed field is added to listed conditions.
add_any_enum-Built :
    (k : EnumKind) (key : String) (values : List (Enum k)) (conditions : List Condition)
    → listed filter_whitelist.filter_fields key ≡ true
    → AllListed conditions
    → Built (specified k values) (add_any_enum k key values conditions)
unfolding add_any_enum
add_any_enum-Built k key [] conditions field h = (conditions, refl, h)
add_any_enum-Built k key (v ∷ values) conditions field h =
    go (specified k (v ∷ values)) (enums_to_literals_ends k (v ∷ values))
  where
    go :
        (b : Bool)
        → Literals b (enums_to_literals k (v ∷ values))
        → Built b (
            enums_to_literals k (v ∷ values) >>= λ literals.
            ok (conditions ++ condition_any key (texts literals) ∷ []))
    go true found =
        let (literals, e) = found in
        (
          conditions ++ condition_any key (texts literals) ∷ [],
          rw e refl,
          all-append _ conditions _ h (rw field refl),
        )
    go false e = rw e refl

add_any_ids-listed :
    (key : String) (ids : List ℤ) (conditions : List Condition)
    → listed filter_whitelist.filter_fields key ≡ true
    → AllListed conditions
    → AllListed (add_any_ids key ids conditions)
add_any_ids-listed key [] conditions field h = h
add_any_ids-listed key (i ∷ ids) conditions field h = all-append _ conditions _ h (rw field refl)

build_conditions-Built :
    (filter : AnimalFilters) → Built (filter_specified filter) (build_conditions filter)
unfolding build_conditions
build_conditions-Built filter =
    Built-bind _ _ _ _
      (add_any_enum-Built animal_type _ filter.animal_types _ refl (
        add_any_ids-listed "cityIds" filter.city_ids _ refl
          (add_any_ids-listed "breeds" filter.breed_ids [] refl refl)))
      λ c1 h1. Built-bind _ _ _ _ (add_any_enum-Built size _ filter.sizes c1 refl h1) λ c2 h2.
        Built-bind _ _ _ _ (add_any_enum-Built gender _ filter.genders c2 refl h2) λ c3 h3.
          Built-bind _ _ _ _ (add_any_enum-Built care_level _ filter.care_levels c3 refl h3)
            λ c4 h4.
              Built-bind _ _ _ _ (add_any_enum-Built color _ filter.colors c4 refl h4) λ c5 h5.
                Built-bind _ _ _ _ (add_any_enum-Built good_with _ filter.good_withs c5 refl h5)
                  λ c6 h6.
                    Built-bind _ _ _ _ (add_any_enum-Built status _ filter.statuses c6 refl h6)
                      λ c7 h7. (_, refl, all-append _ c7 _ h7 refl)

pub thrown-none : {A : Type 0} (r : Result A) → thrown r ≡ none → (a : A) × (r ≡ ok a)
thrown-none (ok a) h = (a, refl)
thrown-none (err e) h = cc

-- With listed conditions, the clause of a query of the search is built.
clauses_built :
    (conditions : List Condition) (limit : ℕ) (offset : ℤ)
    → AllListed conditions
    → ((c : QueryClause) × (build_query_clause (count_filter conditions) filter_whitelist ≡ ok c))
      × ((c : QueryClause) × (build_query_clause
              (data_filter conditions limit offset)
              filter_whitelist
            ≡ ok c))
clauses_built conditions limit offset h = (
  thrown-none _
      (build_query_clause-whitelist (count_filter conditions) filter_whitelist ∙ rw h refl),
  thrown-none _ (
      build_query_clause-whitelist (data_filter conditions limit offset) filter_whitelist
      ∙ rw h refl),
)

-- For every page from 1 on and every positive limit, the two queries of a search are built
-- whatever the filter holds, but that a `kUnspecified` among its values makes the search throw
-- std::runtime_error; in particular no field of a filter is ever refused.
pub search_clauses-thrown :
    (filter : AnimalFilters) (p l : ℕ)
    → thrown (search_clauses filter (pos (suc p)) (pos (suc l)))
      ≡ (if filter_specified filter then none else some runtime_error)
unfolding search_clauses
search_clauses-thrown filter p l = go (filter_specified filter) (build_conditions-Built filter)
  where
    go :
        (b : Bool)
        → Built b (build_conditions filter)
        → thrown (search_clauses filter (pos (suc p)) (pos (suc l)))
          ≡ (if b then none else some runtime_error)
    go true built =
        let (conditions, e, h) = built in
        let ((count, counted), (data_clause, read)) =
          clauses_built conditions (suc l) (to_int32 (p * suc l)) h in
        rw (e, counted, read) refl
    go false e = rw e refl
