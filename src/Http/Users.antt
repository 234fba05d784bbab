-- ===== src/Http/Users.antt =====
-- handlers/src: user_registration_handler.cpp, user_update_handler.cpp and user_delete_handler.cpp.
pub mod Form
pub mod Own
use pawspective_backend.Base.{
  ℕ, ℤ, String, Bool, not, Option, none, some, List, [], ◌==◌, id_Eq, if◌then◌else◌,
}
use pawspective_backend.HttpErrors.{
  FieldError, ok_200, created_201, no_content_204, k_forbidden, k_invalid_credentials,
  k_user_not_found, k_user_already_exists, k_missing_field, k_invalid_json_format,
}
use pawspective_backend.Errors.{
  Exception, Result, ok, err, json_exception, parse_exception, member_missing, type_mismatch,
  validation_failed, user_not_found, user_already_exists,
}
use pawspective_backend.Models.Records.{User}
use pawspective_backend.Models.Dto.{UserDto, UserRegisterDto, UserUpdateDto}
use pawspective_backend.Models.Convert.{user_to_dto}
use pawspective_backend.Exec.{Exec, pure, throw, lift, throw_if, rethrow, ◌>>=◌, ◌>>◌}
use pawspective_backend.Services.Users.{Argon2, register_user, update_user, delete_user}
use pawspective_backend.Std.Chars.{lower}
use pawspective_backend.Tokens.Libraries.{Json}
use pawspective_backend.Http.ErrorResponse.{
  client_error, unauthorized, forbidden_error, conflict, not_found, validation_error,
  throw_if_invalid,
}
use pawspective_backend.Http.Validator.{
  Validator, new_validator, field, not_blank, min_length, max_length, matches,
}
use pawspective_backend.Http.Request.{HttpRequest, Reply, get_user_id, path_id}
use pawspective_backend.Http.Forms.{parse_user_register, parse_user_update}

-- The errors that the validator collects of the registration form.
unfoldable pub registration_errors : (String → Bool) → UserRegisterDto → List FieldError
registration_errors regex_match dto =
    let v₁ = field "email" dto.email new_validator in
    let v₂ = matches regex_match (max_length 255 (not_blank v₁)) in
    let v₃ = field "password" dto.password v₂ in
    let v₄ = max_length 100 (min_length 8 (not_blank v₃)) in
    let v₅ = max_length 255 (not_blank (field "first_name" dto.first_name v₄)) in
    let v₆ = max_length 255 (not_blank (field "last_name" dto.last_name v₅)) in v₆.errors

-- if (value) { validator.Field(…)… }
abbrev pub if_given : (String → Validator → Validator) → Option String → Validator → Validator
if_given check none v = v
if_given check (some value) v = check value v

abbrev pub check_email : (String → Bool) → String → Validator → Validator
check_email regex_match value v =
    matches regex_match (max_length 255 (not_blank (field "email" value v)))

abbrev pub check_name : String → String → Validator → Validator
check_name name value v = max_length 255 (not_blank (field name value v))

-- The errors that the validator collects of the update form.
unfoldable pub update_errors : (String → Bool) → UserUpdateDto → List FieldError
update_errors regex_match dto =
    let v₁ = if_given (check_email regex_match) dto.email new_validator in
    let v₂ = if_given (check_name "first_name") dto.first_name v₁ in
    let v₃ = if_given (check_name "last_name") dto.last_name v₂ in v₃.errors

abbrev pub lower_given : Option String → Option String
lower_given none = none
lower_given (some email) = some (lower email)

abbrev pub registration_exceptions : Exception → Exception
registration_exceptions member_missing = client_error k_missing_field
registration_exceptions json_exception = client_error k_invalid_json_format
registration_exceptions parse_exception = client_error k_invalid_json_format
registration_exceptions type_mismatch = client_error k_invalid_json_format
registration_exceptions (validation_failed errors) = validation_error errors
registration_exceptions user_already_exists = conflict k_user_already_exists
registration_exceptions e = e

abbrev pub update_exceptions : Exception → Exception
update_exceptions member_missing = client_error k_missing_field
update_exceptions json_exception = client_error k_invalid_json_format
update_exceptions parse_exception = client_error k_invalid_json_format
update_exceptions type_mismatch = client_error k_invalid_json_format
update_exceptions (validation_failed errors) = validation_error errors
update_exceptions user_not_found = client_error k_user_not_found
update_exceptions user_already_exists = conflict k_user_already_exists
update_exceptions e = e

abbrev pub delete_exceptions : Exception → Exception
delete_exceptions user_not_found = not_found k_user_not_found
delete_exceptions e = e

module _ (json : Json) (argon2 : Argon2) (regex_match : String → Bool) where
  -- The try block of the registration.
  unfoldable pub register_form : ℕ → json.Value → Exec User
  register_form salt request_json = do
    given ← lift (parse_user_register json request_json)
    let user_data = record given { email = lower given.email }
    lift (throw_if_invalid (registration_errors regex_match user_data))
    register_user argon2 salt user_data

  -- UserRegistrationHandler
  unfoldable pub registration_handler : ℕ → json.Value → Exec (Reply UserDto)
  unfolding rethrow
  registration_handler salt request_json = do
    user ← rethrow registration_exceptions (register_form salt request_json)
    pure (record { status = created_201; body = user_to_dto user })

  -- The second try block of the update.
  unfoldable pub update_form : ℕ → ℤ → json.Value → Exec (Reply UserDto)
  update_form salt target_user_id request_body = do
    given ← lift (parse_user_update json request_body)
    let update_dto = record given { email = lower_given given.email }
    lift (throw_if_invalid (update_errors regex_match update_dto))
    updated_model ← update_user argon2 salt target_user_id update_dto
    pure (record { status = ok_200; body = user_to_dto updated_model })

  -- UserUpdateHandler
  unfoldable pub update_handler : Option ℤ → HttpRequest → ℕ → json.Value → Exec (Reply UserDto)
  unfolding rethrow
  update_handler context request salt request_body = do
    auth_user_id ← get_user_id context
    target_user_id ← path_id request (client_error k_user_not_found)
    throw_if (not (auth_user_id == target_user_id)) (unauthorized k_invalid_credentials)
    rethrow update_exceptions (update_form salt target_user_id request_body)

-- UserDeleteHandler
unfoldable pub delete_handler : Option ℤ → HttpRequest → Exec (Reply (Unit {0}))
unfolding rethrow
delete_handler context request = do
  auth_user_id ← get_user_id context
  target_user_id ← path_id request (client_error k_user_not_found)
  throw_if (not (auth_user_id == target_user_id)) (forbidden_error k_forbidden)
  rethrow delete_exceptions (delete_user target_user_id)
  pure (record { status = no_content_204; body = tt })
