-- ===== src/Http/Auth.antt =====
-- handlers/src: auth_checker.cpp and the handlers of /auth.
pub mod Checker
pub mod Rotation
pub mod SignIn
use pawspective_backend.Base.{
  ℕ, suc, ◌+◌, ℤ, String, Bool, not, Option, none, some, List, [], ◌∷◌, ◌==◌, text_Eq, is_empty,
  if◌then◌else◌, value_or,
}
use pawspective_backend.HttpErrors.{
  FieldError, ok_200, k_access_token_missing, k_access_token_invalid, k_access_token_expired,
  k_missing_field, k_invalid_json_format, k_refresh_token_invalid, k_invalid_credentials,
  k_user_not_found,
}
use pawspective_backend.Errors.{
  Exception, Result, ok, err, json_exception, parse_exception, member_missing, type_mismatch,
  validation_failed, invalid_credentials, user_not_found,
}
use pawspective_backend.Models.Dto.{UserDto}
use pawspective_backend.Models.Convert.{user_to_dto}
use pawspective_backend.Exec.{
  Exec, pure, throw, reads, lift, throw_if, or_throw, rethrow, ◌>>=◌, ◌>>◌,
}
use pawspective_backend.Services.Users.{Argon2, get_user_by_id, authenticate_user}
use pawspective_backend.Std.Chars.{Bytes, bytes_Eq, codes, lower}
use pawspective_backend.Std.Search.{find_char, substr, substr_from}
use pawspective_backend.Tokens.Libraries.{Kind, text, Json, Crypto}
use pawspective_backend.Tokens.Jwt.{
  TokenPayload, TokenStatus, k_valid, k_expired, k_invalid, TokenValidationResult, JwtConfig,
  validate_access_token,
}
use pawspective_backend.Tokens.Sessions.{
  SessionBundle, create_session, validate_session, revoke_session,
}
use pawspective_backend.Http.ErrorResponse.{
  client_error, unauthorized, not_found, body_errors, throw_if_invalid,
}
use pawspective_backend.Http.Validator.{
  Validator, new_validator, field, not_blank, min_length, max_length, matches,
}
use pawspective_backend.Http.Request.{HttpRequest, Reply, get_user_id}

abbrev space : ℕ
space = 32

-- As<std::string>("")
abbrev pub defaulted : Result (Option String) → Result String
defaulted (ok value) = ok (value_or value "")
defaulted (err e) = err e

-- The user id that the checker puts in the context, if the token's validation lets it.
abbrev pub checked_user : TokenValidationResult → Result (Option ℤ)
checked_user result = elim result.status [
  | k_expired ↦ err (unauthorized k_access_token_expired)
  | k_invalid ↦ err (unauthorized k_access_token_invalid)
  | k_valid ↦ elim result.payload [
    -- result.payload->user_id of an empty optional; the token service never returns it
    | none ↦ err (unauthorized k_access_token_invalid)
    | some payload ↦ ok (some payload.user_id)
  ]
]

-- catch ParseException, then catch MemberMissingException
abbrev pub token_errors : Exception → Exception
token_errors parse_exception = client_error k_invalid_json_format
token_errors member_missing = client_error k_missing_field
token_errors e = e

abbrev pub login_errors : Exception → Exception
login_errors invalid_credentials = unauthorized k_invalid_credentials
login_errors user_not_found = unauthorized k_invalid_credentials
login_errors e = e

abbrev pub me_errors : Exception → Exception
me_errors user_not_found = not_found k_user_not_found
me_errors e = e

-- The checks of the login form.
unfoldable pub login_errors_of : (String → Bool) → String → String → List FieldError
login_errors_of regex_match email password =
    let v₁ = field "email" email new_validator in
    let v₂ = matches regex_match (max_length 255 (not_blank v₁)) in
    let v₃ = field "password" password v₂ in
    let v₄ = max_length 100 (min_length 8 (not_blank v₃)) in v₄.errors

module _ (json : Json) (crypto : Crypto) (config : JwtConfig) where
  abbrev check_header : ℕ → Bytes → Option ℕ → Result (Option ℤ)
  check_header now auth_value none = err (unauthorized k_access_token_invalid)
  check_header now auth_value (some bearer_sep_pos) =
      if not (substr auth_value 0 bearer_sep_pos == codes "Bearer")
      then err (unauthorized k_access_token_invalid)
      else checked_user (
          validate_access_token json crypto config now
            (substr_from auth_value (bearer_sep_pos + 1)))

  -- What CheckAuth leaves in the context.
  unfoldable pub check_auth : Bool → ℕ → HttpRequest → Result (Option ℤ)
  unfolding validate_access_token
  check_auth is_required now request =
      let auth_value = codes request.authorization in
      if is_empty auth_value
      then if not is_required then ok none else err (unauthorized k_access_token_missing)
      else check_header now auth_value (find_char space auth_value)

  -- AuthRefreshHandler
  unfoldable pub refresh_handler : Bytes × Bytes → json.Value → Exec (Reply SessionBundle)
  unfolding rethrow
  refresh_handler nonces request_json = do
    token_text ← rethrow token_errors (lift (json.get text request_json "refresh_token"))
    let refresh_token = codes token_text
    found ← validate_session json crypto config refresh_token
    payload ← or_throw found (unauthorized k_refresh_token_invalid)
    revoke_session json crypto config refresh_token
    new_tokens ← create_session json crypto config nonces payload.user_id
    pure (record { status = ok_200; body = new_tokens })

  -- AuthLogoutHandler
  unfoldable pub logout_handler : Option ℤ → json.Value → Exec (Reply (Unit {0}))
  unfolding get_user_id revoke_session rethrow
  logout_handler context request_json = do
    user_id ← get_user_id context
    token_text ← rethrow token_errors (lift (json.get text request_json "refresh_token"))
    revoke_session json crypto config (codes token_text)
    pure (record { status = ok_200; body = tt })

  -- The first try block of AuthLoginHandler: the e-mail address in lower case and the password.
  unfoldable pub login_form : (String → Bool) → json.Value → Exec (String × String)
  login_form regex_match request_json = do
    email_given ← lift (defaulted (json.get_optional text request_json "email"))
    password ← lift (defaulted (json.get_optional text request_json "password"))
    let email = lower email_given
    lift (throw_if_invalid (login_errors_of regex_match email password))
    pure (email, password)

  -- AuthLoginHandler
  unfoldable pub login_handler :
      Argon2 → (String → Bool) → Bytes × Bytes → json.Value → Exec (Reply SessionBundle)
  unfolding rethrow
  login_handler argon2 regex_match nonces request_json = do
    (email, password) ← rethrow body_errors (login_form regex_match request_json)
    user ← rethrow login_errors (authenticate_user argon2 email password)
    session ← create_session json crypto config nonces user.id
    pure (record { status = ok_200; body = session })

-- AuthMeHandler
unfoldable pub me_handler : Option ℤ → Exec (Reply UserDto)
unfolding get_user_id get_user_by_id user_to_dto rethrow
me_handler context = do
  user_id ← get_user_id context
  user ← rethrow me_errors (get_user_by_id user_id)
  pure (record { status = ok_200; body = user_to_dto user })
