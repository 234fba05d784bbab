-- ===== src/Tests.antt =====
-- The theorems at concrete inputs.
mod Tokens
mod Http
use pawspective_backend.Base.{
  ℕ, List, ◌*◌, pos, ◌≡◌, refl, ◌==◌, id_Eq, text_Eq, ◌&&◌, ◌↔◌, true, false, none, some, [], ◌∷◌,
  ◌++◌, All, length, eqb, if◌then◌else◌,
}
use mathlib.Core.List.{Permᴰ}
use pawspective_backend.Errors.{Result, ok, err, forbidden, sql_error, invalid_argument, is_ok}
use pawspective_backend.Models.Enums.{enum_to_literal, AnimalColor, color}
use pawspective_backend.Models.Records.{Animal, AdoptRequest, Organization, Post}
use pawspective_backend.Models.Dto.{PostUpdateDto, ReviewUpdateDto}
use pawspective_backend.Models.EnumText.{serialize, parse, parse_string}
use pawspective_backend.Models.EnumLaws.{parse-serialize_iff, serialize-eq-literal}
use pawspective_backend.Models.EnumLaws.Text.{parse_string-serialize_iff}
use pawspective_backend.Sql.Escape.{escape_for_like, ilike_contains, contains}
use pawspective_backend.Sql.Escape.Literal.{ilike_contains-escape_for_like}
use pawspective_backend.Sql.Builder.{
  condition_ge, asc, QueryFilter, QueryWhitelist, QueryClause, Piece, build_query_clause,
}
use pawspective_backend.Sql.Builder.Placeholders.{
  placeholders, numbered, binders, bound, build_query_clause-placeholders,
}
use pawspective_backend.Sql.Builder.Whitelist.{
  thrown, conditions_listed, sorts_listed, build_query_clause-whitelist,
}
use pawspective_backend.Sql.Builder.Trusted.{is_trusted, build_query_clause-IsTrusted}
use pawspective_backend.Db.Table.{find, first_row, exists_row, where_rows}
use pawspective_backend.Db.Tables.{
  World, User-keyed, Animal-keyed, Post-keyed, Review-keyed, AdoptRequest-keyed,
}
use pawspective_backend.Db.Consistent.{IsConsistent}
use pawspective_backend.Exec.{◌>>=◌, throw_if, or_throw, rethrow}
use pawspective_backend.Repositories.Users.{organization_of}
use pawspective_backend.Repositories.Paging.{order_by, total_pages}
use pawspective_backend.Repositories.Organizations as OrganizationTable
use pawspective_backend.Repositories.Posts as PostTable
use pawspective_backend.Repositories.Animals.{is_available}
use pawspective_backend.Services.Catalogue.{is_stranger, page_size}
use pawspective_backend.Services.Users.{register_user, authenticate_user, delete_user}
use pawspective_backend.Services.Animals
use pawspective_backend.Services.AdoptRequests
use pawspective_backend.Services.Posts
use pawspective_backend.Services.Reviews
use pawspective_backend.Services.Organizations
use pawspective_backend.Models.Dto.{AnimalDto}
use pawspective_backend.Adoption.Offer.{get-requested}
use pawspective_backend.Models.Enums.{AnimalType, AnimalStatus}
use pawspective_backend.Models.Records.{AnimalFilters}
use pawspective_backend.Models.Dto.{ReviewCreateDto, OrganizationRegisterDto}
use pawspective_backend.Errors.{runtime_error}
use pawspective_backend.Db.Tables.{City-keyed}
use pawspective_backend.Repositories.Search.{search_clauses}
use pawspective_backend.Repositories.Search.Clauses.{filter_specified, search_clauses-thrown}
use pawspective_backend.Content.Reviews.Creation.{review_outcome, create-eq-review_outcome}
use pawspective_backend.Accounts.Founding.{register_outcome, register-founding}
use pawspective_backend.Adoption.Step.{step}
use pawspective_backend.Adoption.Accept.{accept_rule, accept-eq-rule}
use pawspective_backend.Adoption.Effects.{IsAdopted, accept-IsAdopted}
use pawspective_backend.Adoption.Request.{
  deny_rule, deny-eq-rule, request_outcome, create-eq-outcome,
}
use pawspective_backend.Accounts.Registration.{register_user-authenticate_user}
use pawspective_backend.Accounts.Deletion.{IsForgotten, delete_user-IsForgotten}
use pawspective_backend.Pagination.Cover.{post_pages, announced, posts_of, post_pages-announced}
use pawspective_backend.Pagination.Overflow.{offset_rows, find_by_name-wraps}
use pawspective_backend.Content.Animals.{
  nothing, update-nothing, delete_outcome, delete-eq-delete_outcome,
}
use pawspective_backend.Content.Posts.{removed, update-deleted_files}
use pawspective_backend.Content.Reviews.{
  delete_found, delete-eq-delete_found, update_outcome, update_text-eq-update_outcome,
}
use pawspective_backend.Samples.Libraries.{sample_json, sample_crypto, sample_config}
use pawspective_backend.Samples.{
  visitor, owner, rex, news, praise, sample, sample-IsConsistent, plain, newcomer,
}

accept-eq-rule_example :
    AdoptRequests.accept (pos 1) (pos 1) sample
    ≡ step sample (accept_rule (pos 1) (pos 1) sample.db)
accept-eq-rule_example = accept-eq-rule (pos 1) (pos 1) sample sample-IsConsistent

accept-IsAdopted_example :
    (request : AdoptRequest) × (animal : Animal) × (find (pos 1) sample.db.adopt_requests
      ≡ some request)
    × (find request.animal_id sample.db.animals ≡ some animal)
    × (is_available animal.status ≡ true)
    × (is_stranger (organization_of (find (pos 1) sample.db.users)) animal.organization_id ≡ false)
    × IsAdopted request animal sample.db (AdoptRequests.accept (pos 1) (pos 1) sample).1.db
unfolding AdoptRequests.accept ◌>>=◌ throw_if or_throw first_row exists_row
accept-IsAdopted_example = accept-IsAdopted (pos 1) (pos 1) sample sample-IsConsistent refl

deny-eq-rule_example :
    AdoptRequests.deny (pos 1) (pos 1) sample ≡ step sample (deny_rule (pos 1) (pos 1) sample.db)
deny-eq-rule_example = deny-eq-rule (pos 1) (pos 1) sample sample-IsConsistent

create-eq-outcome_example : AdoptRequests.create (pos 1) (pos 1) sample ≡ (
    let (result, db) = request_outcome (pos 1) (pos 1) (find (pos 1) sample.db.animals) sample.db in
    (result, record sample { db = db }))
unfolding exists_row
create-eq-outcome_example = create-eq-outcome (pos 1) (pos 1) sample sample-IsConsistent refl

-- The search text `a%` in a stored text, byte by byte.
ilike_contains-escape_for_like_example :
    ilike_contains (λ a b. eqb a b) (escape_for_like (97 ∷ 37 ∷ [])) (97 ∷ 98 ∷ [])
    ≡ contains (λ a b. eqb a b) (97 ∷ 37 ∷ []) (97 ∷ 98 ∷ [])
ilike_contains-escape_for_like_example =
    ilike_contains-escape_for_like (λ a b. eqb a b) (97 ∷ 37 ∷ []) (97 ∷ 98 ∷ [])

abbrev by_age : QueryFilter
by_age = record {
  conditions = condition_ge "age" (pos 2) ∷ [];
  sort_specs = record { column = "id"; order = asc } ∷ [];
  page_spec = record { limit = some (pos 20); offset = some (pos 40) };
}

abbrev animal_fields : QueryWhitelist
animal_fields = record { filter_fields = ("age", "a.age") ∷ []; sort_fields = ("id", "a.id") ∷ [] }

abbrev clause_of : Result QueryClause → QueryClause
clause_of (ok clause) = clause
clause_of (err e) = record { query = []; parameters = [] }

abbrev age_clause : QueryClause
unfolding build_query_clause
age_clause = clause_of (build_query_clause by_age animal_fields)

build_query_clause-placeholders_example :
    (placeholders age_clause.query ≡ numbered 0 (length age_clause.parameters))
    × (age_clause.parameters
        ≡ (binders by_age.conditions ++ bound by_age.page_spec.limit)
          ++ bound by_age.page_spec.offset)
unfolding build_query_clause
build_query_clause-placeholders_example =
    build_query_clause-placeholders by_age animal_fields age_clause refl

build_query_clause-IsTrusted_example :
    All (λ (p : Piece). is_trusted animal_fields p ≡ true) age_clause.query
unfolding build_query_clause
build_query_clause-IsTrusted_example =
    build_query_clause-IsTrusted by_age animal_fields age_clause refl

build_query_clause-whitelist_example : thrown (build_query_clause by_age animal_fields) ≡ (
    if conditions_listed animal_fields.filter_fields by_age.conditions
      && sorts_listed animal_fields.sort_fields by_age.sort_specs
    then none
    else some invalid_argument)
build_query_clause-whitelist_example = build_query_clause-whitelist by_age animal_fields

parse-serialize_iff_example :
    (parse color "grey" ≡ ok AnimalColor.grey) ↔ (serialize color AnimalColor.grey ≡ ok "grey")
parse-serialize_iff_example = parse-serialize_iff color AnimalColor.grey "grey"

parse_string-serialize_iff_example :
    (parse_string color "grey" ≡ ok AnimalColor.grey)
    ↔ (serialize color AnimalColor.grey ≡ ok "grey")
parse_string-serialize_iff_example = parse_string-serialize_iff color AnimalColor.grey "grey"

register_user-authenticate_user_example :
    (authenticate_user plain newcomer.email newcomer.password
      (register_user plain 7 newcomer sample).1).0
    ≡ ok (record {
      id = pos 3;
      email = "new@example.org";
      first_name = "Nina";
      last_name = "Nova";
      organization_id = none;
      password_hash = "pass";
    })
unfolding register_user ◌>>=◌ throw_if or_throw rethrow first_row exists_row
register_user-authenticate_user_example =
    register_user-authenticate_user plain 7 newcomer sample _ refl

delete_user-IsForgotten_example :
    ((delete_user (pos 1) sample).0 ≡ ok tt)
    × IsForgotten (pos 1) (pos 1) sample.db (delete_user (pos 1) sample).1.db
    × ((delete_user (pos 1) sample).1.deleted_files ≡ sample.deleted_files)
unfolding first_row
delete_user-IsForgotten_example = delete_user-IsForgotten (pos 1) (pos 1) sample owner refl refl

abbrev another_post : Post
another_post = record {
  id = pos 2;
  organization_id = pos 1;
  text = "More";
  photos = [];
  created_at = 7;
}

abbrev two_posts : World
two_posts = record sample {
  db = record sample.db { posts = news ∷ another_post ∷ []; next_post = 3 };
}

abbrev post_at : ℕ → Post
post_at time = if eqb time 5 then news else another_post

-- Of the rows of a query, the first two change places.
abbrev first_swapped : List Post → List Post
first_swapped [] = []
first_swapped (p ∷ []) = p ∷ []
first_swapped (p ∷ q ∷ rows) = q ∷ p ∷ rows

first_swapped-Permᴰ : (rows : List Post) → Permᴰ rows (first_swapped rows)
first_swapped-Permᴰ [] = Permᴰ.nil
first_swapped-Permᴰ (p ∷ []) = Permᴰ.cons refl Permᴰ.nil
first_swapped-Permᴰ (p ∷ q ∷ rows) = Permᴰ.swap refl refl

post_pages-announced_example :
    let arrange = λ (n : ℕ) (rows : List Post). first_swapped rows in
    post_pages arrange (pos 1) (announced arrange (pos 1) two_posts) two_posts
    ≡ order_by PostTable.newer (posts_of (pos 1) two_posts)
unfolding where_rows
post_pages-announced_example =
    post_pages-announced (λ n rows. first_swapped rows) post_at (pos 1) two_posts
      (λ n rows. first_swapped-Permᴰ rows) (refl, (refl, tt))

find_by_name-wraps_example :
    OrganizationTable.find_by_name_containing_paginated
      (λ search name. true)
      ""
      (pos 214748366)
      (pos page_size)
      sample
    ≡ (
      offset_rows page_size
          (where_rows (λ (o : Organization). true) sample.db.organizations)
          (214748365 * page_size),
      sample,
    )
find_by_name-wraps_example = find_by_name-wraps (λ search name. true) "" 214748365 sample

delete-eq-delete_outcome_example :
    Animals.delete (pos 2) (pos 1) sample
    ≡ delete_outcome
        (organization_of (find (pos 2) sample.db.users))
        (pos 1)
        (find (pos 1) sample.db.animals)
        sample
delete-eq-delete_outcome_example = delete-eq-delete_outcome (pos 2) (pos 1) sample

update-nothing_example : Animals.update (pos 1) (pos 1) nothing sample ≡ (
    if is_stranger (organization_of (find (pos 1) sample.db.users)) rex.organization_id
    then (err forbidden, sample)
    else (err sql_error, sample))
unfolding first_row
update-nothing_example = update-nothing (pos 1) (pos 1) sample rex refl

abbrev one_photo : PostUpdateDto
one_photo = record { text = none; photos = some ("q.png" ∷ []) }

update-deleted_files_example :
    (is_ok (Posts.update (pos 1) (pos 1) one_photo sample).0 ≡ true)
    × ((Posts.update (pos 1) (pos 1) one_photo sample).1.deleted_files
        ≡ sample.deleted_files ++ removed one_photo.photos news.photos)
unfolding first_row
update-deleted_files_example = update-deleted_files (pos 1) (pos 1) one_photo sample news refl refl

delete-eq-delete_found_example :
    Reviews.delete (pos 2) (pos 1) sample
    ≡ delete_found (pos 2) (pos 1) (find (pos 1) sample.db.reviews) sample
delete-eq-delete_found_example = delete-eq-delete_found (pos 2) (pos 1) sample

abbrev new_text : ReviewUpdateDto
new_text = record { text = some "Bad" }

update_text-eq-update_outcome_example :
    Reviews.update_text (pos 2) (pos 1) new_text sample
    ≡ update_outcome (pos 2) (pos 1) new_text.text (find (pos 1) sample.db.reviews) sample
update_text-eq-update_outcome_example =
    update_text-eq-update_outcome (pos 2) (pos 1) new_text sample sample-IsConsistent

abbrev cats_and_dogs : AnimalFilters
cats_and_dogs = record {
  breed_ids = [];
  city_ids = pos 1 ∷ [];
  animal_types = AnimalType.cat ∷ AnimalType.dog ∷ [];
  sizes = [];
  genders = [];
  care_levels = [];
  colors = [];
  good_withs = [];
  statuses = AnimalStatus.unspecified ∷ [];
  min_age = pos 0;
  max_age = pos 100;
}

search_clauses-thrown_example :
    thrown (search_clauses cats_and_dogs (pos 2) (pos 20))
    ≡ (if filter_specified cats_and_dogs then none else some runtime_error)
search_clauses-thrown_example = search_clauses-thrown cats_and_dogs 1 19

abbrev second_review : ReviewCreateDto
second_review = record { animal_id = pos 1; text = "Again" }

create-eq-review_outcome_example : Reviews.create (pos 2) second_review sample ≡ (
    let (result, db) =
      review_outcome (pos 2) second_review (find (pos 1) sample.db.animals) sample.db in
    (result, record sample { db = db }))
unfolding exists_row
create-eq-review_outcome_example =
    create-eq-review_outcome (pos 2) second_review sample sample-IsConsistent refl

abbrev new_shelter : OrganizationRegisterDto
new_shelter = record { name = "Tails"; description = none; avatar_url = none; city_id = pos 1 }

register-founding_example :
    Organizations.register (pos 2) new_shelter sample
    ≡ register_outcome (pos 2) new_shelter (find (pos 1) sample.db.cities) sample
unfolding first_row
register-founding_example = register-founding (pos 2) new_shelter sample visitor refl refl

get-requested_example :
    (dto : AnimalDto) × (Animals.get (pos 1) (some (pos 2)) sample ≡ (ok dto, sample))
    × (dto.id ≡ pos 1)
    × (dto.can_be_adopted ≡ false)
unfolding first_row exists_row
get-requested_example = get-requested (pos 1) (pos 2) sample rex sample-IsConsistent refl refl

serialize-eq-literal_example :
    (serialize color AnimalColor.grey ≡ ok "grey")
    ↔ (enum_to_literal color AnimalColor.grey ≡ ok "grey")
serialize-eq-literal_example = serialize-eq-literal color AnimalColor.grey "grey"
