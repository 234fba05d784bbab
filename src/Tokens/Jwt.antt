-- ===== src/Tokens/Jwt.antt =====
-- services/src/jwt_service.cpp; times are in seconds.
pub mod RoundTrip
use pawspective_backend.Base.{
  ℕ, suc, ◌+◌, ◌-◌, ℤ, pos, String, Bool, true, false, not, ◌&&◌, ◌||◌, Option, none, some, List,
  [], ◌∷◌, ◌++◌, ltb, eqb, id_leb, ◌==◌, text_Eq, if◌then◌else◌, value_or,
}
use pawspective_backend.Errors.{
  Exception, Result, ok, err, ◌>>=◌, invalid_token, verification_error,
}
use pawspective_backend.Std.Chars.{Bytes, codes, text_of}
use pawspective_backend.Std.Search.{find_char, rfind_char, substr, substr_from}
use pawspective_backend.Std.Decimal.{to_string, stoll}
use pawspective_backend.Tokens.Libraries.{Kind, text, integer, boolean, hs256_header, Json, Crypto}

pub record TokenPayload : Type 0 where
  pub user_id : ℤ
  pub is_refresh_token : Bool

pub data TokenStatus : Type 0 where
  k_valid k_expired k_invalid : TokenStatus

pub record TokenValidationResult : Type 0 where
  pub status : TokenStatus
  pub payload : Option TokenPayload

pub record JwtConfig : Type 0 where
  pub secret_key : Bytes
  pub access_ttl : ℕ
  pub refresh_ttl : ℕ

-- The full stop between the parts of a token.
abbrev pub dot : ℕ
dot = 46

abbrev pub invalid : TokenValidationResult
invalid = record { status = k_invalid; payload = none }

abbrev pub expired : TokenValidationResult
expired = record { status = k_expired; payload = none }

abbrev pub valid : ℤ → Bool → TokenValidationResult
valid user_id is_refresh = record {
  status = k_valid;
  payload = some (record { user_id = user_id; is_refresh_token = is_refresh });
}

-- catch (const std::exception&) { return {kInvalid, nullopt}; }
abbrev pub caught : Result TokenValidationResult → TokenValidationResult
caught (ok r) = r
caught (err e) = invalid

-- catch (const std::exception&) { … }
abbrev pub or_else : {A : Type 0} → Result A → Result A → Result A
or_else (ok a) other = ok a
or_else (err e) other = other

-- first_dot == npos || last_dot == first_dot
abbrev pub parts_at : Option ℕ → Option ℕ → Option (ℕ × ℕ)
parts_at none last_dot = none
parts_at (some first_dot) none = none
parts_at (some first_dot) (some last_dot) =
    if eqb last_dot first_dot then none else some (first_dot, last_dot)

abbrev pub parts : Bytes → Option (ℕ × ℕ)
parts token = parts_at (find_char dot token) (rfind_char dot token)

abbrev pub access_only : TokenValidationResult → TokenValidationResult
access_only result = elim result.status [
  | k_valid ↦ elim result.payload [
    | none ↦ invalid
    | some payload ↦ if not payload.is_refresh_token then result else invalid
  ]
  | k_expired ↦ result
  | k_invalid ↦ result
]

abbrev pub refresh_only : TokenValidationResult → Option TokenPayload
refresh_only result = elim result.status [
  | k_valid ↦ elim result.payload [
    | none ↦ none
    | some payload ↦ if payload.is_refresh_token then some payload else none
  ]
  | k_expired ↦ none
  | k_invalid ↦ none
]

module _ (json : Json) (crypto : Crypto) (config : JwtConfig) where
  -- The members of the payload; `nonce` is the random block of the call.
  abbrev pub payload_of : ℕ → Bytes → ℤ → Bool → ℕ → json.Value
  payload_of now nonce subject is_refresh_token ttl =
      let v₁ = json.set integer json.object "sub" subject in
      let v₂ = json.set integer v₁ "iat" (pos now) in
      let v₃ = json.set integer v₂ "exp" (pos (now + ttl)) in
      let v₄ = json.set boolean v₃ "ref" is_refresh_token in
      let v₅ = json.set text v₄ "iss" "auth-service" in
      json.set text v₅ "jti" (text_of (crypto.base64_encode nonce))

  unfoldable pub signed_area : Bytes → json.Value → Bytes
  signed_area header_json payload =
      crypto.base64_encode header_json ++ (dot ∷ crypto.base64_encode (json.to_string payload))

  unfoldable pub create_token : ℕ → Bytes → Bytes → Bool → ℕ → Result Bytes
  create_token now nonce user_id is_refresh_token ttl = do
    subject ← stoll user_id
    let payload = payload_of now nonce subject is_refresh_token ttl
    let to_sign = signed_area (hs256_header) payload
    let signature = crypto.sign config.secret_key to_sign
    ok (to_sign ++ (dot ∷ crypto.base64_encode signature))

  unfoldable pub generate_access_token : ℕ → Bytes → ℤ → Result Bytes
  unfolding create_token
  generate_access_token now nonce user_id =
      create_token now nonce (to_string user_id) false config.access_ttl

  unfoldable pub generate_refresh_token : ℕ → Bytes → ℤ → Result Bytes
  unfolding create_token
  generate_refresh_token now nonce user_id =
      create_token now nonce (to_string user_id) true config.refresh_ttl

  -- The seconds of the time point.
  abbrev pub read_expiration : Bytes → Option (ℕ × ℕ) → Result ℤ
  read_expiration token none = err invalid_token
  read_expiration token (some (first_dot, last_dot)) = do
    let payload_b64 = substr token (first_dot + 1) (last_dot - first_dot - 1)
    decoded ← crypto.base64_decode payload_b64
    payload_json ← json.from_string decoded
    json.get integer payload_json "exp"

  unfoldable pub extract_expiration_time : Bytes → Result ℤ
  extract_expiration_time token = read_expiration token (parts token)

  -- The try block that verifies.
  abbrev pub verified : Bytes → Bytes → Result (Unit {0})
  verified area signature_b64 = do
    signature ← crypto.base64_decode signature_b64
    if crypto.verify config.secret_key area signature then ok tt else err verification_error

  abbrev pub subject_of : json.Value → Result ℤ
  subject_of payload_json =
      or_else (json.get integer payload_json "sub")
        (json.get text payload_json "sub" >>= λ s. stoll (codes s))

  -- The end of the second try block, for a token that has not expired.
  abbrev pub read_payload : json.Value → Result TokenValidationResult
  read_payload payload_json = do
    subject_id ← subject_of payload_json
    is_refresh ← json.get boolean payload_json "ref"
    ok (valid subject_id is_refresh)

  abbrev pub read_claims : ℕ → json.Value → Result TokenValidationResult
  read_claims now payload_json = do
    iss ← json.get text payload_json "iss"
    if not (iss == "auth-service") then ok invalid else do
      exp ← json.get integer payload_json "exp"
      if not (id_leb (pos now) exp) then ok expired else read_payload payload_json

  -- The second try block.
  abbrev pub read_token : ℕ → Bytes → ℕ → Result TokenValidationResult
  read_token now area first_dot = do
    payload_text ← crypto.base64_decode (substr_from area (first_dot + 1))
    payload_json ← json.from_string payload_text
    header_text ← crypto.base64_decode (substr area 0 first_dot)
    header_json ← json.from_string header_text
    alg ← json.get text header_json "alg"
    if not (alg == "HS256") then ok invalid else read_claims now payload_json

  abbrev pub if_verified : Result (Unit {0}) → TokenValidationResult → TokenValidationResult
  if_verified (ok u) result = result
  if_verified (err e) result = invalid

  abbrev pub validate_parts : ℕ → Bytes → Option (ℕ × ℕ) → TokenValidationResult
  validate_parts now token none = invalid
  validate_parts now token (some (first_dot, last_dot)) =
      let area = substr token 0 last_dot in
      if_verified (verified area (substr_from token (last_dot + 1)))
        (caught (read_token now area first_dot))

  unfoldable pub validate_token : ℕ → Bytes → TokenValidationResult
  validate_token now token = validate_parts now token (parts token)

  unfoldable pub validate_access_token : ℕ → Bytes → TokenValidationResult
  unfolding validate_token
  validate_access_token now token = access_only (validate_token now token)

  unfoldable pub validate_refresh_token : ℕ → Bytes → Option TokenPayload
  unfolding validate_token
  validate_refresh_token now token = refresh_only (validate_token now token)
