-- ===== src/Http/Auth/Checker.antt =====
-- AuthChecker::CheckAuth with the tokens of JwtService.
use pawspective_backend.Base.{
  ℕ, ◌+◌, ℤ, ◌≡◌, refl, ap, ◌∙◌, Bool, true, false, some, ◌++◌, leb, if◌then◌else◌,
}
use pawspective_backend.HttpErrors.{k_access_token_invalid, k_access_token_expired}
use pawspective_backend.Errors.{ok, err}
use pawspective_backend.Std.Chars.{Bytes, bytes_Eq, codes}
use pawspective_backend.Std.Search.{find_char}
use pawspective_backend.Std.Decimal.{Int64}
use pawspective_backend.Tokens.Libraries.{Json, Crypto}
use pawspective_backend.Tokens.Jwt.{
  JwtConfig, generate_access_token, generate_refresh_token, validate_access_token, valid, invalid,
  expired,
}
use pawspective_backend.Tokens.Jwt.RoundTrip.{
  access_of, refresh_of, generate_access_token-eq, generate_refresh_token-eq,
  validate_access_token-access_of, validate_access_token-refresh_of,
}
use pawspective_backend.Http.ErrorResponse.{unauthorized}
use pawspective_backend.Http.Request.{HttpRequest}
use pawspective_backend.Http.Auth.{checked_user, check_auth}

module _ (json : Json) (crypto : Crypto) (config : JwtConfig) where
  -- After `Bearer ` comes the token.
  check_auth-bearer :
      (is_required : Bool) (t : ℕ) (token : Bytes) (request : HttpRequest)
      → codes request.authorization ≡ codes "Bearer " ++ token
      → check_auth json crypto config is_required t request
        ≡ checked_user (validate_access_token json crypto config t token)
  unfolding check_auth find_char
  check_auth-bearer is_required t token request e = rw e refl

  checked-access :
      (b : Bool) (i : ℤ)
      → checked_user (if b then valid i false else expired)
        ≡ (if b then ok (some i) else err (unauthorized k_access_token_expired))
  checked-access true i = refl
  checked-access false i = refl

  -- A request that carries an access token made for a user is let through with this user's id
  -- until the token expires, and is refused as expired afterwards.
  pub check_auth-access_token :
      (is_required : Bool) (now t : ℕ) (nonce : Bytes) (user_id : ℤ) (access : Bytes)
      (request : HttpRequest)
      → Int64 user_id
      → generate_access_token json crypto config now nonce user_id ≡ ok access
      → codes request.authorization ≡ codes "Bearer " ++ access
      → check_auth json crypto config is_required t request ≡ (
          if leb t (now + config.access_ttl)
          then ok (some user_id)
          else err (unauthorized k_access_token_expired))
  check_auth-access_token is_required now t nonce user_id access request h made e =
      let same : access_of json crypto config now nonce user_id ≡ access =
        cc (generate_access_token-eq json crypto config now nonce user_id h) in
      let head : codes request.authorization
          ≡ codes "Bearer " ++ access_of json crypto config now nonce user_id =
        rw same e in
      check_auth-bearer is_required t _ request head
      ∙ ap checked_user (validate_access_token-access_of json crypto config now t nonce user_id)
      ∙ checked-access (leb t (now + config.access_ttl)) user_id

  checked-refresh :
      (b : Bool)
      → checked_user (if b then invalid else expired)
        ≡ err (unauthorized (if b then k_access_token_invalid else k_access_token_expired))
  checked-refresh true = refl
  checked-refresh false = refl

  -- A request that carries a refresh token instead is never let through: it is refused with
  -- ACCESS_TOKEN_INVALID until the token expires and with ACCESS_TOKEN_EXPIRED afterwards.
  pub check_auth-refresh_token :
      (is_required : Bool) (now t : ℕ) (nonce : Bytes) (user_id : ℤ) (refresh : Bytes)
      (request : HttpRequest)
      → Int64 user_id
      → generate_refresh_token json crypto config now nonce user_id ≡ ok refresh
      → codes request.authorization ≡ codes "Bearer " ++ refresh
      → check_auth json crypto config is_required t request
        ≡ err (
            unauthorized (
              if leb t (now + config.refresh_ttl)
              then k_access_token_invalid
              else k_access_token_expired))
  check_auth-refresh_token is_required now t nonce user_id refresh request h made e =
      let same : refresh_of json crypto config now nonce user_id ≡ refresh =
        cc (generate_refresh_token-eq json crypto config now nonce user_id h) in
      let head : codes request.authorization
          ≡ codes "Bearer " ++ refresh_of json crypto config now nonce user_id =
        rw same e in
      check_auth-bearer is_required t _ request head
      ∙ ap checked_user (validate_access_token-refresh_of json crypto config now t nonce user_id)
      ∙ checked-refresh (leb t (now + config.refresh_ttl))
