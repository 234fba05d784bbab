-- ===== src/Tests/Http.antt =====
-- The theorems on handlers at concrete inputs.
use pawspective_backend.Base.{
  pos, String, ◌≡◌, refl, arith, Bool, true, none, some, [], ◌==◌, text_Eq, if◌then◌else◌, ◌∷◌,
}
use pawspective_backend.HttpErrors.{ok_200, created_201}
use pawspective_backend.Errors.{ok, err}
use pawspective_backend.Models.Dto.{
  UserDto, UserRegisterDto, UserUpdateDto, OrganizationRegisterDto, OrganizationUpdateDto,
  PostCreateDto, ReviewCreateDto, ReviewUpdateDto,
}
use pawspective_backend.Db.Tables.{World}
use pawspective_backend.Std.Chars.{Bytes, codes, lower}
use pawspective_backend.Std.Decimal.{stoll}
use pawspective_backend.Services.Users.{register_user, generate_hash}
use pawspective_backend.Tokens.Libraries.{text}
use pawspective_backend.Http.ErrorResponse.{validation_error}
use pawspective_backend.Http.Request.{HttpRequest, Reply, answer}
use pawspective_backend.Http.Forms.{
  parse_user_register, serialize_user_register, parse_user_update, serialize_user_update,
  parse_organization_register, serialize_organization_register, parse_organization_update,
  serialize_organization_update, parse_post_create, serialize_post_create, parse_review_create,
  serialize_review_create, parse_review_update, serialize_review_update,
}
use pawspective_backend.Http.Forms.RoundTrip.{forms-parse-serialize}
use pawspective_backend.Http.Users.{
  registration_errors, register_form, registration_handler, delete_handler,
}
use pawspective_backend.Http.Users.Form.{created, form_accepts, registration_handler-form}
use pawspective_backend.Http.Users.Own.{delete_answer, delete_handler-eq-delete_answer}
use pawspective_backend.Http.Adoption.{accept_handler, deny_handler}
use pawspective_backend.Http.Adoption.Statuses.{
  accept_answer, deny_answer, decision_handlers-eq-answer,
}
use pawspective_backend.Samples.{sample, sample-IsConsistent, plain, newcomer}
use pawspective_backend.Samples.Libraries.{sample_json, sample_crypto, sample_config}
use pawspective_backend.Http.Auth.{login_handler}
use pawspective_backend.Http.Auth.SignIn.{registration_handler-login_handler}
use pawspective_backend.Http.ErrorResponse.{throw_if_invalid}
use pawspective_backend.Http.Validator.{field, not_blank, max_length, min_length, matches, is_blank}
use pawspective_backend.Exec.{rethrow, or_throw, throw_if, ◌>>=◌}
use pawspective_backend.Db.Table.{first_row, exists_row}
use pawspective_backend.Models.Convert.{user_to_dto}
use pawspective_backend.Tokens.Jwt.{generate_access_token}
use pawspective_backend.Tokens.Jwt.RoundTrip.{refresh_of, generate_refresh_token-eq}
use pawspective_backend.Models.Convert.{filters_from_dto}
use pawspective_backend.Models.Enums.{AnimalType}
use pawspective_backend.Models.EnumText.{
  parse, parse_animal_type, parse_string, parse_string_size, parse_string_gender,
  parse_string_care_level, parse_string_good_with, parse_string_color, parse_string_status,
  parse_string_animal_type,
}
use pawspective_backend.Repositories.Search.Options.{get_available_filters, to_enum_vector}
use pawspective_backend.Services.Animals.{get_filter_options}
use pawspective_backend.Http.Animals.{filters_handler}
use pawspective_backend.Models.Dto.{AnimalFilterDto}
use pawspective_backend.Std.Decimal.{stoll, stoi}
use pawspective_backend.Services.Catalogue.{page_size}
use pawspective_backend.Repositories.Search.Rows.{find_by_filters_paginated}
use pawspective_backend.Repositories.Search.Found.{found}
use pawspective_backend.Http.Search.{
  parse_filters_from_request, parse_int64_vector, parse_enum_vector, parse_enums,
  parse_optional_int,
}
use pawspective_backend.Http.Search.Queries.{Reads, parse_filters_from_request-found}

abbrev with_id : String → HttpRequest
with_id id = record {
  authorization = "";
  path_arg = λ name. if name == "id" then id else "";
  arg = λ name. none;
  arg_vector = λ name. [];
}

abbrev any_email : String → Bool
any_email email = true

decision_handlers-eq-answer_example :
    (answer (accept_handler (some (pos 1)) (with_id "1") sample)
      ≡ accept_answer (pos 1) (stoll (codes "1")) sample)
    × (answer (deny_handler (some (pos 1)) (with_id "1") sample)
        ≡ deny_answer (pos 1) (stoll (codes "1")) sample)
decision_handlers-eq-answer_example =
    decision_handlers-eq-answer (pos 1) (with_id "1") sample sample-IsConsistent

delete_handler-eq-delete_answer_example :
    answer (delete_handler (some (pos 1)) (with_id "1") sample)
    ≡ delete_answer (pos 1) (stoll (codes "1")) sample
delete_handler-eq-delete_answer_example =
    delete_handler-eq-delete_answer (pos 1) (with_id "1") sample

abbrev newcomer_body : sample_json.Value
newcomer_body =
    let v₁ = sample_json.set text sample_json.object "email" newcomer.email in
    let v₂ = sample_json.set text v₁ "password" newcomer.password in
    let v₃ = sample_json.set text v₂ "first_name" newcomer.first_name in
    sample_json.set text v₃ "last_name" newcomer.last_name

newcomer-read : parse_user_register sample_json newcomer_body ≡ ok newcomer
unfolding parse_user_register
newcomer-read = refl

registration_handler-form_example :
    let dto : UserRegisterDto = record newcomer { email = lower newcomer.email } in
    let (result, after) = register_user plain 7 dto sample in
    registration_handler sample_json plain any_email 7 newcomer_body sample ≡ (
      if form_accepts any_email dto
      then (created result, after)
      else (err (validation_error (registration_errors any_email dto)), sample))
registration_handler-form_example =
    registration_handler-form sample_json plain any_email 7 newcomer_body newcomer sample
      newcomer-read

forms-parse-serialize_example :
    ((dto : UserRegisterDto)
      → parse_user_register sample_json (serialize_user_register sample_json dto) ≡ ok dto)
    × ((dto : UserUpdateDto)
        → parse_user_update sample_json (serialize_user_update sample_json dto) ≡ ok dto)
    × ((dto : OrganizationRegisterDto)
        → parse_organization_register sample_json (serialize_organization_register sample_json dto)
          ≡ ok dto)
    × ((dto : OrganizationUpdateDto)
        → parse_organization_update sample_json (serialize_organization_update sample_json dto)
          ≡ ok dto)
    × ((dto : PostCreateDto)
        → parse_post_create sample_json (serialize_post_create sample_json dto) ≡ ok dto)
    × ((dto : ReviewCreateDto)
        → parse_review_create sample_json (serialize_review_create sample_json dto) ≡ ok dto)
    × ((dto : ReviewUpdateDto)
        → parse_review_update sample_json (serialize_review_update sample_json dto) ≡ ok dto)
forms-parse-serialize_example = forms-parse-serialize sample_json

-- A registration whose password is long enough, and a login in upper case.
abbrev founder : UserRegisterDto
founder = record newcomer { password = "password" }

abbrev founder_body : sample_json.Value
founder_body =
    let v₁ = sample_json.set text sample_json.object "email" founder.email in
    let v₂ = sample_json.set text v₁ "password" founder.password in
    let v₃ = sample_json.set text v₂ "first_name" founder.first_name in
    sample_json.set text v₃ "last_name" founder.last_name

abbrev login_body : sample_json.Value
login_body =
    sample_json.set text (sample_json.set text sample_json.object "email" "NEW@example.org")
      "password" "password"

founder-read : parse_user_register sample_json founder_body ≡ ok founder
unfolding parse_user_register
founder-read = refl

abbrev founder_reply : Reply UserDto
founder_reply = record {
  status = created_201;
  body = record {
    id = pos 3;
    email = "new@example.org";
    first_name = founder.first_name;
    last_name = founder.last_name;
    organization_id = none;
  };
}

abbrev registered : World
registered = (registration_handler sample_json plain any_email 7 founder_body sample).1

founder-replied :
    (registration_handler sample_json plain any_email 7 founder_body sample).0 ≡ ok founder_reply
unfolding registration_handler register_form parse_user_register registration_errors field not_blank
    max_length min_length matches lower is_blank throw_if_invalid register_user generate_hash
    first_row exists_row rethrow or_throw throw_if ◌>>=◌ user_to_dto
founder-replied = refl

abbrev founder_refresh : Bytes
founder_refresh = refresh_of sample_json sample_crypto sample_config registered.db.now [] (pos 3)

registration_handler-login_handler_example :
    (access : Bytes) × (generate_access_token sample_json sample_crypto sample_config
        registered.db.now []
        (pos 3)
      ≡ ok access)
    × ((login_handler sample_json sample_crypto sample_config plain any_email
          ([], [])
          login_body
          registered).0
        ≡ ok (record {
          status = ok_200;
          body = record { access_token = access; refresh_token = founder_refresh };
        }))
unfolding lower registration_handler register_form parse_user_register registration_errors field
    not_blank max_length min_length matches is_blank throw_if_invalid register_user generate_hash
    first_row exists_row rethrow or_throw throw_if ◌>>=◌ user_to_dto
registration_handler-login_handler_example =
    registration_handler-login_handler sample_json sample_crypto sample_config plain any_email 7 []
      [] founder_refresh founder_body login_body founder "NEW@example.org" founder_reply sample
      founder-read founder-replied refl refl refl (omega arith)
      (generate_refresh_token-eq sample_json sample_crypto sample_config registered.db.now []
        (pos 3) (omega arith))
      refl

abbrev cats_wanted : HttpRequest
cats_wanted = record {
  authorization = "";
  path_arg = λ name. "";
  arg = λ name. if name == "age_lte" then some "12" else none;
  arg_vector = λ name. if name == "animal_types" then "cat" ∷ [] else [];
}

parse_filters_from_request-found_example :
    Reads
      (λ dto.
        find_by_filters_paginated (filters_from_dto dto) (pos 1) (pos page_size) sample
        ≡ (ok (found (filters_from_dto dto) 0 page_size sample.db), sample))
      (parse_filters_from_request cats_wanted)
parse_filters_from_request-found_example =
    parse_filters_from_request-found cats_wanted 0 sample (omega arith)

abbrev cats : AnimalFilterDto
cats = record {
  breeds = none;
  city_ids = none;
  animal_types = some (AnimalType.cat ∷ []);
  sizes = none;
  genders = none;
  care_levels = none;
  colors = none;
  good_withs = none;
  statuses = none;
  age_lte = some (pos 12);
  age_gte = none;
}

cats_wanted-read : parse_filters_from_request cats_wanted ≡ ok cats
unfolding parse_filters_from_request parse_int64_vector parse_enum_vector parse_enums
    parse_optional_int parse parse_animal_type stoi stoll
cats_wanted-read = refl

-- The options of the search in the sample.
options-offered :
    (options : AnimalFilterDto) × (filters_handler sample
      ≡ (ok (record { status = ok_200; body = options }), sample))
unfolding filters_handler get_filter_options get_available_filters to_enum_vector parse_string
    parse_string_size parse_string_gender parse_string_care_level parse_string_good_with
    parse_string_color parse_string_status parse_string_animal_type ◌>>=◌
options-offered = (_, refl)
