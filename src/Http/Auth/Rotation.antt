-- ===== src/Http/Auth/Rotation.antt =====
-- AuthRefreshHandler: a refresh token is exchanged once.
use pawspective_backend.Base.{
  ℕ, ◌+◌, String, ◌≡◌, refl, ap, ◌∙◌, arith, Bool, true, false, none, some, List, [], ◌∷◌, ltb,
  ◌==◌, text_Eq, if◌then◌else◌,
}
use pawspective_backend.HttpErrors.{ok_200, k_refresh_token_invalid}
use pawspective_backend.Errors.{ok, err}
use pawspective_backend.Db.Table.{exists_row, reject, has}
use pawspective_backend.Db.Tables.{World, User-keyed}
use pawspective_backend.Exec.{◌>>=◌, or_throw, rethrow}
use pawspective_backend.Std.Chars.{Bytes, codes}
use pawspective_backend.Std.Decimal.{Int64}
use pawspective_backend.Tokens.Libraries.{text, Json, Crypto}
use pawspective_backend.Tokens.Jwt.{
  TokenPayload, JwtConfig, generate_access_token, generate_refresh_token,
}
use pawspective_backend.Tokens.Sessions.{
  SessionBundle, has_hash, create_session, validate_session, revoke_session,
}
use pawspective_backend.Tokens.Sessions.Revocation.{
  at_time, validate_session-revoke_session, validate_session-state,
}
use pawspective_backend.Tokens.Sessions.Lifetime.{
  create_session-run, validate_session-new, validate_session-other,
}
use pawspective_backend.Tokens.Jwt.RoundTrip.{access_of, generate_access_token-eq}
use pawspective_backend.Http.ErrorResponse.{unauthorized}
use pawspective_backend.Http.Auth.{refresh_handler}

exists_row-rejected :
    {Row : Type 0} (p q : Row → Bool) (rows : List Row)
    → exists_row p rows ≡ false
    → exists_row p (reject q rows) ≡ false
unfolding exists_row reject
exists_row-rejected p q [] h = refl
exists_row-rejected p q (r ∷ rows) h = ground (arith, exists_row-rejected p q rows)

module _ (json : Json) (crypto : Crypto) (config : JwtConfig) where
  -- The handler of a body with a token that is accepted.
  refresh_handler-eq :
      (nonces : Bytes × Bytes) (body : json.Value) (token : String) (payload : TokenPayload)
      (bundle : SessionBundle) (w : World)
      → json.get text body "refresh_token" ≡ ok token
      → (validate_session json crypto config (codes token) w).0 ≡ ok (some payload)
      → (create_session json crypto config nonces payload.user_id
          (revoke_session json crypto config (codes token) w).1).0
        ≡ ok bundle
      → refresh_handler json crypto config nonces body w ≡ (
        ok (record { status = ok_200; body = bundle }),
        (create_session json crypto config nonces payload.user_id
            (revoke_session json crypto config (codes token) w).1).1,
      )
  unfolding refresh_handler rethrow ◌>>=◌ or_throw revoke_session create_session
  refresh_handler-eq nonces body token payload bundle w given accepted made =
      rw (given, accepted, validate_session-state json crypto config (codes token) w, made) refl

  -- A body whose token the session service refuses.
  pub refresh_handler-refused :
      (nonces : Bytes × Bytes) (body : json.Value) (token : String) (w : World)
      → json.get text body "refresh_token" ≡ ok token
      → (validate_session json crypto config (codes token) w).0 ≡ ok none
      → refresh_handler json crypto config nonces body w
        ≡ (err (unauthorized k_refresh_token_invalid), w)
  unfolding refresh_handler rethrow ◌>>=◌ or_throw
  refresh_handler-refused nonces body token w given refused =
      rw (given, refused, validate_session-state json crypto config (codes token) w) refl

  -- A refresh token that is accepted is exchanged: where its user is known and the hash of the new
  -- token is neither its own hash nor stored, the handler answers 200 with the new tokens; from
  -- then on the old token is refused at every time, and the new one accepted until it expires.
  pub refresh_handler-rotates :
      (t : ℕ) (access_nonce refresh_nonce : Bytes) (body : json.Value) (token : String)
      (payload : TokenPayload) (refresh : Bytes) (w : World)
      → json.get text body "refresh_token" ≡ ok token
      → (validate_session json crypto config (codes token) w).0 ≡ ok (some payload)
      → Int64 payload.user_id
      → has w.db.users payload.user_id ≡ true
      → generate_refresh_token json crypto config w.db.now refresh_nonce payload.user_id
        ≡ ok refresh
      → exists_row (has_hash (crypto.sha256 refresh)) w.db.sessions ≡ false
      → (crypto.sha256 refresh == crypto.sha256 (codes token)) ≡ false
      → let after = refresh_handler json crypto config (access_nonce, refresh_nonce) body w in
        (access : Bytes) × (generate_access_token json crypto config w.db.now access_nonce
            payload.user_id
          ≡ ok access)
        × (after.0
            ≡ ok (record {
              status = ok_200;
              body = record { access_token = access; refresh_token = refresh };
            }))
        × ((validate_session json crypto config (codes token) (at_time t after.1)).0 ≡ ok none)
        × ((validate_session json crypto config refresh (at_time t after.1)).0
            ≡ ok (
                if ltb t (w.db.now + config.refresh_ttl)
                then some (record { user_id = payload.user_id; is_refresh_token = true })
                else none))
  unfolding revoke_session
  refresh_handler-rotates t access_nonce refresh_nonce body token payload refresh w given accepted h
        known made fresh different =
      let revoked = (revoke_session json crypto config (codes token) w).1 in
      let still_fresh = exists_row-rejected _ (has_hash (crypto.sha256 (codes token))) _ fresh in
      let run =
        create_session-run json crypto config access_nonce refresh_nonce payload.user_id refresh
          revoked h known made still_fresh in
      let bundle : SessionBundle = record {
        access_token = access_of json crypto config w.db.now access_nonce payload.user_id;
        refresh_token = refresh;
      } in
      let whole =
        refresh_handler-eq (access_nonce, refresh_nonce) body token payload bundle w given accepted
          (ap (λ o. o.0) run)
        ∙ ap (λ o. (ok (record { status = ok_200; body = bundle }), o.1)) run in
      (
        access_of json crypto config w.db.now access_nonce payload.user_id,
        generate_access_token-eq json crypto config w.db.now access_nonce payload.user_id h,
        ap (λ o. o.0) whole,
        ap (λ o. (validate_session json crypto config (codes token) (at_time t o.1)).0) whole
            ∙ validate_session-other json crypto config t payload.user_id (crypto.sha256 refresh)
                (w.db.now + config.refresh_ttl) (codes token) revoked different
            ∙ validate_session-revoke_session json crypto config (codes token) (codes token) t w
            ∙ rw
                ((text_Eq.same_iff (crypto.sha256 (codes token)) (crypto.sha256 (codes token))).1
                  refl)
                refl,
        ap (λ o. (validate_session json crypto config refresh (at_time t o.1)).0) whole
            ∙ validate_session-new json crypto config t refresh_nonce payload.user_id refresh
                revoked h made still_fresh,
      )
