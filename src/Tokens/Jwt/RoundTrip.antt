-- ===== src/Tokens/Jwt/RoundTrip.antt =====
-- A token that JwtService creates, as JwtService validates it.
use pawspective_backend.Base.{
  ℕ, ◌+◌, ◌-◌, ℤ, pos, String, ◌<◌, ◌≡◌, ◌≢◌, refl, ap, ◌∙◌, arith, Bool, true, false, none, some,
  [], ◌∷◌, ◌++◌, length, leb, eqb, ◌==◌, text_Eq, if◌then◌else◌, Bool-cases, inl, inr,
}
use mathlib.Core.List.{append_assoc}
use pawspective_backend.Errors.{ok}
use pawspective_backend.Std.Chars.{Bytes, text_of}
use pawspective_backend.Std.Search.{
  find_char, substr, find_char-append, rfind_char-append, take-append, drop-append,
}
use pawspective_backend.Std.Decimal.{to_string, Int64, stoll-to_string}
use pawspective_backend.Tokens.Libraries.{
  Kind, text, integer, boolean, Of, hs256_header, Json, Crypto,
}
use pawspective_backend.Tokens.Jwt.{
  TokenValidationResult, JwtConfig, dot, invalid, expired, valid, caught, parts, payload_of,
  signed_area, create_token, generate_access_token, generate_refresh_token, extract_expiration_time,
  read_expiration, validate_access_token, validate_refresh_token, access_only, refresh_only,
  read_claims, read_token, validate_parts, validate_token,
}

length-append_cons : (h p : Bytes) → length h < length (h ++ dot ∷ p)
length-append_cons [] p = omega arith
length-append_cons (c ∷ h) p = omega (arith, length-append_cons h p)

ne_of_eq : (s t : String) → (s == t) ≡ false → s ≢ t
ne_of_eq s t h e = let same : (s == t) ≡ true = (text_Eq.same_iff s t).1 e in cc

longer : (h p : Bytes) → eqb (length (h ++ dot ∷ p)) (length h) ≡ false
longer h p = ground (arith, length-append_cons h p)

access_only-if :
    (b : Bool) (i : ℤ)
    → access_only (if b then valid i false else expired) ≡ (if b then valid i false else expired)
access_only-if true i = refl
access_only-if false i = refl

access_only-if_refresh :
    (b : Bool) (i : ℤ)
    → access_only (if b then valid i true else expired) ≡ (if b then invalid else expired)
access_only-if_refresh true i = refl
access_only-if_refresh false i = refl

refresh_only-if :
    (b : Bool) (i : ℤ)
    → refresh_only (if b then valid i true else expired)
      ≡ (if b then some (record { user_id = i; is_refresh_token = true }) else none)
refresh_only-if true i = refl
refresh_only-if false i = refl

refresh_only-if_access :
    (b : Bool) (i : ℤ) → refresh_only (if b then valid i false else expired) ≡ none
refresh_only-if_access true i = refl
refresh_only-if_access false i = refl

length-append : (h p : Bytes) → length (h ++ dot ∷ p) ≡ length h + length p + 1
length-append [] p = omega arith
length-append (c ∷ h) p = omega (arith, length-append h p)

-- The part between the two full stops.
substr-middle :
    (h p rest : Bytes)
    → substr ((h ++ dot ∷ p) ++ rest) (length h + 1) (length (h ++ dot ∷ p) - length h - 1) ≡ p
substr-middle h p rest =
    let count : length (h ++ dot ∷ p) - length h - 1 ≡ length p =
      omega (arith, length-append h p) in
    rw (count, append_assoc h (dot ∷ p) rest, drop-append h (p ++ rest) dot) (take-append p rest)

caught-if :
    (b : Bool) (r s : TokenValidationResult)
    → caught (if b then ok r else ok s) ≡ (if b then r else s)
caught-if true r s = refl
caught-if false r s = refl

-- Three parts without full stops are found again.
parts-append :
    (h p s : Bytes)
    → find_char dot h ≡ none
    → find_char dot s ≡ none
    → parts ((h ++ dot ∷ p) ++ dot ∷ s) ≡ some (length h, length (h ++ dot ∷ p))
parts-append h p s eh es =
    let whole : ((h ++ dot ∷ p) ++ dot ∷ s) ≡ h ++ dot ∷ (p ++ dot ∷ s) =
      append_assoc h (dot ∷ p) (dot ∷ s) in
    let first : find_char dot ((h ++ dot ∷ p) ++ dot ∷ s) ≡ some (length h) =
      rw whole (find_char-append dot h (p ++ dot ∷ s) eh) in
    let last = rfind_char-append dot (h ++ dot ∷ p) s es in rw (first, last, longer h p) refl

module _ (json : Json) (crypto : Crypto) (config : JwtConfig) where
  skip :
      (k j : Kind) (v : json.Value) (name other : String) (x : Of j)
      → (name == other) ≡ false
      → json.get k (json.set j v other x) name ≡ json.get k v name
  skip k j v name other x e = json.get-set_other k j v name other x (ne_of_eq name other e)

  payload_exp :
      (now : ℕ) (nonce : Bytes) (subject : ℤ) (is_refresh : Bool) (ttl : ℕ)
      → json.get integer (payload_of json crypto config now nonce subject is_refresh ttl) "exp"
        ≡ ok (pos (now + ttl))
  payload_exp now nonce subject is_refresh ttl =
      let v₁ = json.set integer json.object "sub" subject in
      let v₂ = json.set integer v₁ "iat" (pos now) in
      let v₃ = json.set integer v₂ "exp" (pos (now + ttl)) in
      let v₄ = json.set boolean v₃ "ref" is_refresh in
      let v₅ = json.set text v₄ "iss" "auth-service" in
      skip integer text v₅ "exp" "jti" (text_of (crypto.base64_encode nonce)) refl
      ∙ skip integer text v₄ "exp" "iss" "auth-service" refl
      ∙ skip integer boolean v₃ "exp" "ref" is_refresh refl
      ∙ json.get-set integer v₂ "exp" (pos (now + ttl))

  -- The members that validation reads are those that the token was created with.
  read_claims-payload_of :
      (now t : ℕ) (nonce : Bytes) (subject : ℤ) (is_refresh : Bool) (ttl : ℕ)
      → read_claims json crypto config t
          (payload_of json crypto config now nonce subject is_refresh ttl)
        ≡ (if leb t (now + ttl) then ok (valid subject is_refresh) else ok expired)
  read_claims-payload_of now t nonce subject is_refresh ttl =
      let v₁ = json.set integer json.object "sub" subject in
      let v₂ = json.set integer v₁ "iat" (pos now) in
      let v₃ = json.set integer v₂ "exp" (pos (now + ttl)) in
      let v₄ = json.set boolean v₃ "ref" is_refresh in
      let v₅ = json.set text v₄ "iss" "auth-service" in
      let jti = text_of (crypto.base64_encode nonce) in
      let iss : json.get text (json.set text v₅ "jti" jti) "iss" ≡ ok "auth-service" =
        skip text text v₅ "iss" "jti" jti refl ∙ json.get-set text v₄ "iss" "auth-service" in
      let exp = payload_exp now nonce subject is_refresh ttl in
      let sub : json.get integer (json.set text v₅ "jti" jti) "sub" ≡ ok subject =
        skip integer text v₅ "sub" "jti" jti refl
        ∙ skip integer text v₄ "sub" "iss" "auth-service" refl
        ∙ skip integer boolean v₃ "sub" "ref" is_refresh refl
        ∙ skip integer integer v₂ "sub" "exp" (pos (now + ttl)) refl
        ∙ skip integer integer v₁ "sub" "iat" (pos now) refl
        ∙ json.get-set integer json.object "sub" subject in
      let ref : json.get boolean (json.set text v₅ "jti" jti) "ref" ≡ ok is_refresh =
        skip boolean text v₅ "ref" "jti" jti refl
        ∙ skip boolean text v₄ "ref" "iss" "auth-service" refl
        ∙ json.get-set boolean v₃ "ref" is_refresh in
      elim (Bool-cases (leb t (now + ttl))) [
        | inl early ↦ rw (iss, exp, early, sub, ref) refl
        | inr late ↦ rw (iss, exp, late) refl
      ]

  -- The token that create_token builds from a payload.
  abbrev pub token_of : json.Value → Bytes
  token_of payload =
      let area = signed_area json crypto config hs256_header payload in
      area ++ (dot ∷ crypto.base64_encode (crypto.sign config.secret_key area))

  read_token-append :
      (t : ℕ) (payload : json.Value)
      → read_token json crypto config t
          (signed_area json crypto config hs256_header payload)
          (length (crypto.base64_encode hs256_header))
        ≡ read_claims json crypto config t payload
  unfolding signed_area
  read_token-append t payload =
      let h = crypto.base64_encode hs256_header in
      let p = crypto.base64_encode (json.to_string payload) in
      rw
        (
          drop-append h p dot,
          take-append h (dot ∷ p),
          crypto.decode-encode (json.to_string payload),
          json.from_string-to_string payload,
          crypto.decode-encode hs256_header,
          json.from_string-header,
          json.get-alg,
        )
        refl

  validate_parts-append :
      (t : ℕ) (payload : json.Value)
      → validate_parts json crypto config t (token_of payload) (
          some (
            length (crypto.base64_encode hs256_header),
            length (signed_area json crypto config hs256_header payload),
          ))
        ≡ caught (read_claims json crypto config t payload)
  validate_parts-append t payload =
      let area = signed_area json crypto config hs256_header payload in
      let signature = crypto.sign config.secret_key area in
      rw
        (
          take-append area (dot ∷ crypto.base64_encode signature),
          drop-append area (crypto.base64_encode signature) dot,
          crypto.decode-encode signature,
          crypto.verify-sign config.secret_key area,
        )
        (ap caught (read_token-append t payload))

  validate_token-token_of :
      (t : ℕ) (payload : json.Value)
      → validate_token json crypto config t (token_of payload)
        ≡ caught (read_claims json crypto config t payload)
  unfolding validate_token signed_area
  validate_token-token_of t payload =
      let h = crypto.base64_encode hs256_header in
      let p = crypto.base64_encode (json.to_string payload) in
      let area = h ++ (dot ∷ p) in
      let s = crypto.base64_encode (crypto.sign config.secret_key area) in
      ap (validate_parts json crypto config t (token_of payload))
        (parts-append h p s (crypto.encode-plain _) (crypto.encode-plain _))
      ∙ validate_parts-append t payload

  pub create_token-eq :
      (now : ℕ) (nonce : Bytes) (user_id : ℤ) (is_refresh : Bool) (ttl : ℕ)
      → Int64 user_id
      → create_token json crypto config now nonce (to_string user_id) is_refresh ttl
        ≡ ok (token_of (payload_of json crypto config now nonce user_id is_refresh ttl))
  unfolding create_token
  create_token-eq now nonce user_id is_refresh ttl h = rw (stoll-to_string user_id h) refl

  pub validate_token-payload :
      (now t : ℕ) (nonce : Bytes) (user_id : ℤ) (is_refresh : Bool) (ttl : ℕ)
      → validate_token json crypto config t
          (token_of (payload_of json crypto config now nonce user_id is_refresh ttl))
        ≡ (if leb t (now + ttl) then valid user_id is_refresh else expired)
  validate_token-payload now t nonce user_id is_refresh ttl =
      validate_token-token_of t _
      ∙ ap caught (read_claims-payload_of now t nonce user_id is_refresh ttl)
      ∙ caught-if (leb t (now + ttl)) _ _

  -- The token that create_token builds expires when its payload says.
  pub extract_expiration_time-payload :
      (now : ℕ) (nonce : Bytes) (user_id : ℤ) (is_refresh : Bool) (ttl : ℕ)
      → extract_expiration_time json crypto config
          (token_of (payload_of json crypto config now nonce user_id is_refresh ttl))
        ≡ ok (pos (now + ttl))
  unfolding extract_expiration_time signed_area
  extract_expiration_time-payload now nonce user_id is_refresh ttl =
      let payload = payload_of json crypto config now nonce user_id is_refresh ttl in
      let h = crypto.base64_encode hs256_header in
      let p = crypto.base64_encode (json.to_string payload) in
      let s = crypto.base64_encode (crypto.sign config.secret_key (h ++ (dot ∷ p))) in
      ap (read_expiration json crypto config (token_of payload))
        (parts-append h p s (crypto.encode-plain _) (crypto.encode-plain _))
      ∙ rw
          (
            substr-middle h p (dot ∷ s),
            crypto.decode-encode (json.to_string payload),
            json.from_string-to_string payload,
          )
          (payload_exp now nonce user_id is_refresh ttl)

  -- The two tokens that are generated for an id of 64 bits.
  abbrev pub access_of : ℕ → Bytes → ℤ → Bytes
  access_of now nonce user_id =
      token_of (payload_of json crypto config now nonce user_id false config.access_ttl)

  abbrev pub refresh_of : ℕ → Bytes → ℤ → Bytes
  refresh_of now nonce user_id =
      token_of (payload_of json crypto config now nonce user_id true config.refresh_ttl)

  pub generate_access_token-eq :
      (now : ℕ) (nonce : Bytes) (user_id : ℤ)
      → Int64 user_id
      → generate_access_token json crypto config now nonce user_id
        ≡ ok (access_of now nonce user_id)
  unfolding generate_access_token
  generate_access_token-eq now nonce user_id h =
      create_token-eq now nonce user_id false config.access_ttl h

  pub generate_refresh_token-eq :
      (now : ℕ) (nonce : Bytes) (user_id : ℤ)
      → Int64 user_id
      → generate_refresh_token json crypto config now nonce user_id
        ≡ ok (refresh_of now nonce user_id)
  unfolding generate_refresh_token
  generate_refresh_token-eq now nonce user_id h =
      create_token-eq now nonce user_id true config.refresh_ttl h

  pub validate_refresh_token-refresh_of :
      (now t : ℕ) (nonce : Bytes) (user_id : ℤ)
      → validate_refresh_token json crypto config t (refresh_of now nonce user_id) ≡ (
          if leb t (now + config.refresh_ttl)
          then some (record { user_id = user_id; is_refresh_token = true })
          else none)
  unfolding validate_refresh_token
  validate_refresh_token-refresh_of now t nonce user_id =
      ap refresh_only (validate_token-payload now t nonce user_id true config.refresh_ttl)
      ∙ refresh_only-if (leb t (now + config.refresh_ttl)) user_id

  pub validate_access_token-access_of :
      (now t : ℕ) (nonce : Bytes) (user_id : ℤ)
      → validate_access_token json crypto config t (access_of now nonce user_id)
        ≡ (if leb t (now + config.access_ttl) then valid user_id false else expired)
  unfolding validate_access_token
  validate_access_token-access_of now t nonce user_id =
      ap access_only (validate_token-payload now t nonce user_id false config.access_ttl)
      ∙ access_only-if (leb t (now + config.access_ttl)) user_id

  pub validate_access_token-refresh_of :
      (now t : ℕ) (nonce : Bytes) (user_id : ℤ)
      → validate_access_token json crypto config t (refresh_of now nonce user_id)
        ≡ (if leb t (now + config.refresh_ttl) then invalid else expired)
  unfolding validate_access_token
  validate_access_token-refresh_of now t nonce user_id =
      ap access_only (validate_token-payload now t nonce user_id true config.refresh_ttl)
      ∙ access_only-if_refresh (leb t (now + config.refresh_ttl)) user_id

  -- For an id of 64 bits both kinds of token are created. Until it expires an access token is
  -- accepted as an access token with the user's id, and a refresh token as a refresh token;
  -- after that, and as a token of the other kind, neither is.
  pub generate-validate :
      (now t : ℕ) (nonce : Bytes) (user_id : ℤ)
      → Int64 user_id
      → (access refresh : Bytes) × (generate_access_token json crypto config now nonce user_id
          ≡ ok access)
        × (generate_refresh_token json crypto config now nonce user_id ≡ ok refresh)
        × (validate_access_token json crypto config t access
            ≡ (if leb t (now + config.access_ttl) then valid user_id false else expired))
        × (validate_access_token json crypto config t refresh
            ≡ (if leb t (now + config.refresh_ttl) then invalid else expired))
        × (validate_refresh_token json crypto config t refresh ≡ (
            if leb t (now + config.refresh_ttl)
            then some (record { user_id = user_id; is_refresh_token = true })
            else none))
        × (validate_refresh_token json crypto config t access ≡ none)
  unfolding validate_refresh_token
  generate-validate now t nonce user_id h =
      let access = validate_token-payload now t nonce user_id false config.access_ttl in
      (
        access_of now nonce user_id,
        refresh_of now nonce user_id,
        generate_access_token-eq now nonce user_id h,
        generate_refresh_token-eq now nonce user_id h,
        validate_access_token-access_of now t nonce user_id,
        validate_access_token-refresh_of now t nonce user_id,
        validate_refresh_token-refresh_of now t nonce user_id,
        ap refresh_only access ∙ refresh_only-if_access (leb t (now + config.access_ttl)) user_id,
      )
