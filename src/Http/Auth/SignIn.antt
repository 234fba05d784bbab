-- ===== src/Http/Auth/SignIn.antt =====
-- A registered user signs in: UserRegistrationHandler and AuthLoginHandler.
use pawspective_backend.Base.{
  ℕ, ℤ, String, ◌≡◌, refl, sym, ap, ◌∙◌, arith, Bool, true, false, not, ◌&&◌, some, List, [], ◌∷◌,
  length, leb, is_empty, ◌==◌, text_Eq, id_Eq, id_eq_refl, Bool-cases, Option-cases, inl, inr,
}
use pawspective_backend.HttpErrors.{ok_200}
use pawspective_backend.Errors.{Result, ok, err, user_not_found, user_already_exists}
use pawspective_backend.Models.Records.{User}
use pawspective_backend.Models.Dto.{UserDto, UserRegisterDto}
use pawspective_backend.Models.Convert.{user_to_dto}
use pawspective_backend.Db.Table.{first_row, exists_row, has}
use pawspective_backend.Db.Tables.{World, User-keyed}
use pawspective_backend.Exec.{◌>>=◌, rethrow, or_throw, throw_if}
use pawspective_backend.Services.Users.{Argon2, register_user, authenticate_user, verify_hash}
use pawspective_backend.Accounts.Registration.{register_user-authenticate_user}
use pawspective_backend.Std.Chars.{Bytes, codes, lower}
use pawspective_backend.Std.Decimal.{Int64}
use pawspective_backend.Tokens.Libraries.{text, Json, Crypto}
use pawspective_backend.Tokens.Jwt.{JwtConfig, generate_access_token, generate_refresh_token}
use pawspective_backend.Tokens.Jwt.RoundTrip.{access_of, generate_access_token-eq}
use pawspective_backend.Tokens.Sessions.{SessionBundle, has_hash, create_session}
use pawspective_backend.Tokens.Sessions.Lifetime.{create_session-run}
use pawspective_backend.Http.ErrorResponse.{throw_if_invalid, validation_error}
use pawspective_backend.Http.Validator.{is_blank}
use pawspective_backend.Http.Request.{Reply}
use pawspective_backend.Http.Forms.{parse_user_register}
use pawspective_backend.Http.Users.{registration_handler, registration_errors}
use pawspective_backend.Http.Users.Form.{checks, form_accepts, created, registration_handler-form}
use pawspective_backend.Http.Auth.{login_errors_of, login_form, login_handler}

front :
    (a b m p q r x y : Bool)
    → (((((not a && b) && m) && (not p && (q && r))) && x) && y) ≡ true
    → (not a && (b && (m && (not p && (q && r))))) ≡ true
front a b m p q r x y h = ground arith

-- The conditions that the login form makes, all of which the registration form makes too.
clean-login :
    (regex_match : String → Bool) (dto : UserRegisterDto)
    → form_accepts regex_match dto ≡ true
    → is_empty (login_errors_of regex_match dto.email dto.password) ≡ true
unfolding login_errors_of
clean-login regex_match dto h = simp checks (
    front (is_blank dto.email) (leb (length (codes dto.email)) 255) (regex_match dto.email)
      (is_blank dto.password) (leb 8 (length (codes dto.password)))
      (leb (length (codes dto.password)) 100) _ _ h)

first_row-has :
    (p : User → Bool) (rows : List User) (r : User)
    → first_row p rows ≡ some r
    → has rows r.id ≡ true
unfolding first_row exists_row
first_row-has p [] r e = cc
first_row-has p (x ∷ rows) r e = elim (Bool-cases (p x)) [
  | inl hit ↦
      let same : some x ≡ some r = rw hit at e in
      let this : x ≡ r = cc in rw (← this) (rw (id_eq_refl x.id) refl)
  | inr miss ↦ let rest = first_row-has p rows r (rw miss at e) in ground (arith, rest)
]

-- Who is authenticated is in the table, and nothing changes.
authenticate_user-found :
    (argon2 : Argon2) (email password : String) (w : World) (user : User)
    → (authenticate_user argon2 email password w).0 ≡ ok user
    → (authenticate_user argon2 email password w ≡ (ok user, w)) × (has w.db.users user.id ≡ true)
unfolding authenticate_user ◌>>=◌ or_throw throw_if
authenticate_user-found argon2 email password w user e =
    elim (Option-cases (first_row (λ (u : User). u.email == email) w.db.users)) [
      | inl missing ↦ let wrong : err user_not_found ≡ ok user = rw missing at e in cc
      | inr (u, found) ↦ elim (Bool-cases (verify_hash argon2 password u.password_hash)) [
        | inl right ↦
            let same : ok u ≡ ok user = rw (found, right) at e in
            let this : u ≡ user = cc in
            (
              rw (found, right) (ap (λ r. (r, w)) same),
              first_row-has (λ (u : User). u.email == email) w.db.users user
                  (found ∙ ap (λ v. some v) this),
            )
        | inr mismatch ↦ let wrong : err user_not_found ≡ ok user = rw (found, mismatch) at e in cc
      ]
    ]

reply_id : ℤ → Result (Reply UserDto) → ℤ
reply_id i (ok reply) = reply.body.id
reply_id i (err e) = i

created-inv :
    (r : Result User) (reply : Reply UserDto)
    → created r ≡ ok reply
    → (user : User) × (r ≡ ok user) × (reply.body.id ≡ user.id)
unfolding user_to_dto reply_id
created-inv (ok user) reply e = (user, refl, sym (ap (reply_id user.id) e))
created-inv (err user_already_exists) reply e = cc
created-inv (err e) reply h = cc

-- The login of a user that the service authenticates.
module _ (json : Json) (crypto : Crypto) (config : JwtConfig) where
  login_handler-eq :
      (argon2 : Argon2) (regex_match : String → Bool) (nonces : Bytes × Bytes) (body : json.Value)
      (email password : String) (user : User) (bundle : SessionBundle) (w : World)
      → json.get_optional text body "email" ≡ ok (some email)
      → json.get_optional text body "password" ≡ ok (some password)
      → is_empty (login_errors_of regex_match (lower email) password) ≡ true
      → authenticate_user argon2 (lower email) password w ≡ (ok user, w)
      → (create_session json crypto config nonces user.id w).0 ≡ ok bundle
      → (login_handler json crypto config argon2 regex_match nonces body w).0
        ≡ ok (record { status = ok_200; body = bundle })
  unfolding login_handler login_form throw_if_invalid rethrow ◌>>=◌
  login_handler-eq argon2 regex_match nonces body email password user bundle w e p valid known
        made =
      rw (e, p, valid, known, made) refl

-- The e-mail address of a form in lower case.
abbrev lowered : UserRegisterDto → UserRegisterDto
lowered given = record given { email = lower given.email }

registered-inv :
    (json : Json) (argon2 : Argon2) (regex_match : String → Bool) (salt : ℕ) (form : json.Value)
    (given : UserRegisterDto) (reply : Reply UserDto) (w : World)
    → parse_user_register json form ≡ ok given
    → (registration_handler json argon2 regex_match salt form w).0 ≡ ok reply
    → (user : User) × (form_accepts regex_match (lowered given) ≡ true)
      × ((register_user argon2 salt (lowered given) w).0 ≡ ok user)
      × (reply.body.id ≡ user.id)
      × ((registration_handler json argon2 regex_match salt form w).1
          ≡ (register_user argon2 salt (lowered given) w).1)
registered-inv json argon2 regex_match salt form given reply w read replied =
    let whole = registration_handler-form json argon2 regex_match salt form given w read in
    elim (Bool-cases (form_accepts regex_match (lowered given))) [
      | inr bad ↦
          let wrong : err (validation_error (registration_errors regex_match (lowered given)))
              ≡ ok reply =
            ap (λ o. o.0) (sym (rw bad at whole)) ∙ replied in
          cc
      | inl good ↦
          let run = rw good at whole in
          let (user, made, same) = created-inv _ reply (ap (λ o. o.0) (sym run) ∙ replied) in
          (user, good, made, same, ap (λ o. o.1) run)
    ]

-- Whoever has registered signs in: a login with the registered password and the registered e-mail
-- address, in upper or lower case, answers 200 with an access token for the id that the
-- registration answered and with a refresh token of this id, where the id has 64 bits and the
-- hash of the refresh token is not stored yet.
pub registration_handler-login_handler :
    (json : Json) (crypto : Crypto) (config : JwtConfig) (argon2 : Argon2)
    (regex_match : String → Bool) (salt : ℕ) (access_nonce refresh_nonce refresh : Bytes)
    (form body : json.Value) (given : UserRegisterDto) (email : String) (reply : Reply UserDto)
    (w : World)
    → parse_user_register json form ≡ ok given
    → (registration_handler json argon2 regex_match salt form w).0 ≡ ok reply
    → json.get_optional text body "email" ≡ ok (some email)
    → json.get_optional text body "password" ≡ ok (some given.password)
    → lower email ≡ lower given.email
    → Int64 reply.body.id
    → let v = (registration_handler json argon2 regex_match salt form w).1 in
      generate_refresh_token json crypto config v.db.now refresh_nonce reply.body.id ≡ ok refresh
      → exists_row (has_hash (crypto.sha256 refresh)) v.db.sessions ≡ false
      → (access : Bytes) × (generate_access_token json crypto config v.db.now access_nonce
            reply.body.id
          ≡ ok access)
        × ((login_handler json crypto config argon2 regex_match
              (access_nonce, refresh_nonce)
              body
              v).0
            ≡ ok (record {
              status = ok_200;
              body = record { access_token = access; refresh_token = refresh };
            }))
registration_handler-login_handler json crypto config argon2 regex_match salt access_nonce
      refresh_nonce refresh form body given email reply w read replied e p same h renewed fresh =
    let v = (registration_handler json argon2 regex_match salt form w).1 in
    let (user, accepts, made, id_same, after) =
      registered-inv json argon2 regex_match salt form given reply w read replied in
    let signed = register_user-authenticate_user argon2 salt (lowered given) w user made in
    let here : (authenticate_user argon2 (lower email) given.password v).0 ≡ ok user =
      rw (same, after) signed in
    let (known, there) = authenticate_user-found argon2 (lower email) given.password v user here in
    let valid : is_empty (login_errors_of regex_match (lower email) given.password) ≡ true =
      rw same (clean-login regex_match (lowered given) accepts) in
    let there_too : has v.db.users reply.body.id ≡ true = rw id_same there in
    let run =
      create_session-run json crypto config access_nonce refresh_nonce reply.body.id refresh v h
        there_too renewed fresh in
    let bundle : SessionBundle = record {
      access_token = access_of json crypto config v.db.now access_nonce reply.body.id;
      refresh_token = refresh;
    } in
    let opened : (create_session json crypto config (access_nonce, refresh_nonce) user.id v).0
        ≡ ok bundle =
      rw (← id_same) (ap (λ o. o.0) run) in
    (
      access_of json crypto config v.db.now access_nonce reply.body.id,
      generate_access_token-eq json crypto config v.db.now access_nonce reply.body.id h,
      login_handler-eq json crypto config argon2 regex_match (access_nonce, refresh_nonce) body
          email given.password user bundle v e p valid known opened,
    )
