-- ===== src/Http/Search/Queries.antt =====
-- From the filters of a request to the animals that its search finds.
use pawspective_backend.Base.{
  ℕ, suc, ◌*◌, ◌^◌, ◌<◌, pos, ◌≡◌, refl, ◌⊎◌, inl, inr, String, Bool, true, false, Option, none,
  some, List, [], ◌∷◌, value_or, if◌then◌else◌,
}
use pawspective_backend.HttpErrors.{k_validation_error}
use pawspective_backend.Errors.{Result, ok, err, is_ok, json_exception, ◌>>=◌}
use pawspective_backend.Models.Enums.{
  EnumKind, Enum, enum_to_literal, size, gender, care_level, good_with, color, status, animal_type,
}
use pawspective_backend.Models.EnumText.{parse}
use pawspective_backend.Models.EnumLaws.{parse-serialize_iff, serialize-eq-literal}
use pawspective_backend.Models.Dto.{AnimalFilterDto}
use pawspective_backend.Models.Convert.{filters_from_dto}
use pawspective_backend.Db.Tables.{World}
use pawspective_backend.Repositories.Search.Clauses.{specified, filter_specified}
use pawspective_backend.Repositories.Search.Rows.{find_by_filters_paginated}
use pawspective_backend.Repositories.Search.Found.{found, find_by_filters_paginated-found}
use pawspective_backend.Services.Catalogue.{page_size}
use pawspective_backend.Exec.{rethrown}
use pawspective_backend.Std.Chars.{codes}
use pawspective_backend.Std.Decimal.{stoll, stoi}
use pawspective_backend.Http.ErrorResponse.{client_error}
use pawspective_backend.Http.Request.{HttpRequest, every}
use pawspective_backend.Http.Search.{
  parse_enums, parse_enum_vector, parse_ids, parse_int64_vector, parse_optional_int,
  parse_filters_from_request,
}

-- The result has `P`, or the exception is an answer by 400 or one of JSON.
abbrev pub Reads : {A : Type 0} → (A → Type 0) → Result A → Type 0
Reads P (ok a) = P a
Reads P (err e) = (e ≡ client_error k_validation_error) ⊎ (e ≡ json_exception)

Reads-bind :
    {A B : Type 0} (P : A → Type 0) (Q : B → Type 0) (r : Result A) (f : A → Result B)
    → Reads P r
    → ((a : A) → P a → Reads Q (f a))
    → Reads Q (r >>= f)
Reads-bind P Q (ok a) f h k = k a h
Reads-bind P Q (err e) f h k = h

abbrev Any : {A : Type 0} → A → Type 0
Any a = Unit

Reads-answered :
    {A : Type 0} (r : Result A) → Reads Any (rethrown (every (client_error k_validation_error)) r)
Reads-answered (ok a) = tt
Reads-answered (err e) = inl refl

Reads-if :
    {A : Type 0} (b : Bool) (a : A) (r : Result A) → Reads Any r → Reads Any (if b then ok a else r)
Reads-if true a r h = tt
Reads-if false a r h = h

parse-Reads : (k : EnumKind) (s : String) → Reads Any (parse k s)
unfolding parse
parse-Reads size s = search (Reads-if, inr, refl) depth 24
parse-Reads gender s = search (Reads-if, inr, refl) depth 24
parse-Reads care_level s = search (Reads-if, inr, refl) depth 24
parse-Reads good_with s = search (Reads-if, inr, refl) depth 24
parse-Reads color s = search (Reads-if, inr, refl) depth 24
parse-Reads status s = search (Reads-if, inr, refl) depth 24
parse-Reads animal_type s = search (Reads-if, inr, refl) depth 24

-- A value that a text is read as has a literal.
abbrev HasLiteral : (k : EnumKind) → Enum k → Type 0
HasLiteral k v = is_ok (enum_to_literal k v) ≡ true

parse-HasLiteral : (k : EnumKind) (s : String) → Reads (HasLiteral k) (parse k s)
parse-HasLiteral k s = go (parse k s) refl (parse-Reads k s)
  where
    go : (r : Result (Enum k)) → parse k s ≡ r → Reads Any r → Reads (HasLiteral k) r
    go (ok v) e h =
        let literal = (serialize-eq-literal k v s).0 ((parse-serialize_iff k v s).0 e) in
        rw literal refl
    go (err x) e h = h

abbrev AreSpecified : (k : EnumKind) → List (Enum k) → Type 0
AreSpecified k values = specified k values ≡ true

parse_enums-Reads :
    (k : EnumKind) (args : List String) → Reads (AreSpecified k) (parse_enums k args)
unfolding parse_enums
parse_enums-Reads k [] = refl
parse_enums-Reads k (s ∷ args) =
    Reads-bind (HasLiteral k) _ (parse k s) _ (parse-HasLiteral k s) λ v first.
      Reads-bind (AreSpecified k) _ (parse_enums k args) _ (parse_enums-Reads k args)
        λ values rest. rw (first, rest) refl

abbrev AreGivenSpecified : (k : EnumKind) → Option (List (Enum k)) → Type 0
AreGivenSpecified k given = AreSpecified k (value_or given [])

parse_enum_vector-Reads :
    (k : EnumKind) (args : List String) → Reads (AreGivenSpecified k) (parse_enum_vector k args)
unfolding parse_enum_vector
parse_enum_vector-Reads k [] = refl
parse_enum_vector-Reads k (s ∷ args) =
    Reads-bind (AreSpecified k) _ (parse_enums k (s ∷ args)) _ (parse_enums-Reads k (s ∷ args))
      λ values h. h

parse_ids-Reads : (args : List String) → Reads Any (parse_ids args)
unfolding parse_ids
parse_ids-Reads [] = tt
parse_ids-Reads (s ∷ args) =
    Reads-bind Any Any (rethrown (every (client_error k_validation_error)) (stoll (codes s)))
      (λ id. parse_ids args >>= λ result. ok (id ∷ result)) (Reads-answered (stoll (codes s)))
      λ id _.
        Reads-bind Any Any (parse_ids args) (λ result. ok (id ∷ result)) (parse_ids-Reads args)
          λ ids _. tt

parse_int64_vector-Reads : (args : List String) → Reads Any (parse_int64_vector args)
unfolding parse_int64_vector
parse_int64_vector-Reads [] = tt
parse_int64_vector-Reads (s ∷ args) =
    Reads-bind Any Any (parse_ids (s ∷ args)) (λ ids. ok (some ids)) (parse_ids-Reads (s ∷ args))
      λ ids _. tt

parse_optional_int-Reads : (arg : Option String) → Reads Any (parse_optional_int arg)
unfolding parse_optional_int
parse_optional_int-Reads none = tt
parse_optional_int-Reads (some s) =
    Reads-bind Any Any (rethrown (every (client_error k_validation_error)) (stoi (codes s)))
      (λ number. ok (some number)) (Reads-answered (stoi (codes s))) λ number _. tt

abbrev IsSpecified : AnimalFilterDto → Type 0
IsSpecified dto = filter_specified (filters_from_dto dto) ≡ true

parse_filters-Reads :
    (request : HttpRequest) → Reads IsSpecified (parse_filters_from_request request)
unfolding parse_filters_from_request
parse_filters-Reads request =
    let ids : (name : String) → Reads Any (parse_int64_vector (request.arg_vector name)) =
      λ name. parse_int64_vector-Reads (request.arg_vector name) in
    let enums : (k : EnumKind) (name : String)
        → Reads (AreGivenSpecified k) (parse_enum_vector k (request.arg_vector name)) =
      λ k name. parse_enum_vector-Reads k (request.arg_vector name) in
    let number : (name : String) → Reads Any (parse_optional_int (request.arg name)) =
      λ name. parse_optional_int-Reads (request.arg name) in
    Reads-bind Any _ _ _ (ids "breeds") λ breeds _.
      Reads-bind Any _ _ _ (ids "city_ids") λ cities _.
        Reads-bind (AreGivenSpecified animal_type) _ _ _ (enums animal_type "animal_types")
          λ animal_types h1.
            Reads-bind (AreGivenSpecified size) _ _ _ (enums size "sizes") λ sizes h2.
              Reads-bind (AreGivenSpecified gender) _ _ _ (enums gender "genders") λ genders h3.
                Reads-bind (AreGivenSpecified care_level) _ _ _ (enums care_level "care_levels")
                  λ care_levels h4.
                    Reads-bind (AreGivenSpecified color) _ _ _ (enums color "colors") λ colors h5.
                      Reads-bind (AreGivenSpecified good_with) _ _ _ (enums good_with "good_withs")
                        λ good_withs h6.
                          Reads-bind (AreGivenSpecified status) _ _ _ (enums status "statuses")
                            λ statuses h7. Reads-bind Any _ _ _ (number "age_gte") λ age_gte _.
                              Reads-bind Any _ _ _ (number "age_lte")
                                λ age_lte _. rw (h1, h2, h3, h4, h5, h6, h7) refl

Reads-map :
    {A : Type 0} (P Q : A → Type 0) (r : Result A) → ((a : A) → P a → Q a) → Reads P r → Reads Q r
Reads-map P Q (ok a) f h = f a h
Reads-map P Q (err e) f h = h

-- The reading of the filters of a request ends in an answer by 400 or in the exception of JSON, or
-- it gives a filter. Where the offset of the page is below 2^31, the two queries of the search then
-- give the animals that meet the filter, of which the page shows its part in the order of their
-- ids, and the state stays.
pub parse_filters_from_request-found :
    (request : HttpRequest) (p : ℕ) (w : World)
    → p * page_size < 2 ^ 31
    → Reads
        (λ dto.
          find_by_filters_paginated (filters_from_dto dto) (pos (suc p)) (pos page_size) w
          ≡ (ok (found (filters_from_dto dto) (p * page_size) page_size w.db), w))
        (parse_filters_from_request request)
parse_filters_from_request-found request p w small =
    Reads-map IsSpecified _ _
      (λ dto h. find_by_filters_paginated-found (filters_from_dto dto) p 19 w h small)
      (parse_filters-Reads request)
