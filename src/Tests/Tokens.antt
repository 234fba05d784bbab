-- ===== src/Tests/Tokens.antt =====
-- The theorems on tokens and sessions at concrete inputs.
use pawspective_backend.Base.{
  ◌+◌, pos, String, ◌≡◌, refl, arith, true, false, none, some, [], ◌∷◌, ◌++◌, leb, ltb, ◌==◌,
  text_Eq, if◌then◌else◌,
}
use pawspective_backend.HttpErrors.{ok_200, k_access_token_invalid, k_access_token_expired}
use pawspective_backend.Errors.{ok, err}
use pawspective_backend.Db.Table.{exists_row}
use pawspective_backend.Db.Tables.{World}
use pawspective_backend.Exec.{◌>>=◌}
use pawspective_backend.Std.Chars.{Bytes, codes, text_of}
use pawspective_backend.Std.Search.{find_char, rfind_char}
use pawspective_backend.Tokens.Libraries.{text}
use pawspective_backend.Tokens.Jwt.{
  TokenPayload, generate_access_token, generate_refresh_token, validate_access_token,
  validate_refresh_token, signed_area, valid, invalid, expired,
}
use pawspective_backend.Tokens.Jwt.RoundTrip.{
  access_of, refresh_of, generate_access_token-eq, generate_refresh_token-eq, generate-validate,
}
use pawspective_backend.Tokens.Sessions.{
  create_session, validate_session, revoke_session, revoke_expired_sessions,
}
use pawspective_backend.Tokens.Sessions.Revocation.{
  at_time, validate_session-revoke_session, validate_session-revoke_expired_sessions,
}
use pawspective_backend.Tokens.Sessions.Lifetime.{create_session-validate_session}
use pawspective_backend.Http.ErrorResponse.{unauthorized}
use pawspective_backend.Http.Request.{HttpRequest}
use pawspective_backend.Http.Auth.{check_auth, refresh_handler}
use pawspective_backend.Http.Auth.Checker.{check_auth-access_token, check_auth-refresh_token}
use pawspective_backend.Http.Auth.Rotation.{refresh_handler-rotates}
use pawspective_backend.Samples.{sample}
use pawspective_backend.Samples.Libraries.{sample_json, sample_crypto, sample_config}

abbrev nonce : Bytes
nonce = 1 ∷ 2 ∷ []

abbrev access : Bytes
access = access_of sample_json sample_crypto sample_config 10 nonce (pos 2)

abbrev refresh : Bytes
refresh = refresh_of sample_json sample_crypto sample_config 10 nonce (pos 2)

generate-validate_example :
    (a r : Bytes) × (generate_access_token sample_json sample_crypto sample_config 10 nonce (pos 2)
      ≡ ok a)
    × (generate_refresh_token sample_json sample_crypto sample_config 10 nonce (pos 2) ≡ ok r)
    × (validate_access_token sample_json sample_crypto sample_config 20 a
        ≡ (if leb 20 (10 + sample_config.access_ttl) then valid (pos 2) false else expired))
    × (validate_access_token sample_json sample_crypto sample_config 20 r
        ≡ (if leb 20 (10 + sample_config.refresh_ttl) then invalid else expired))
    × (validate_refresh_token sample_json sample_crypto sample_config 20 r ≡ (
        if leb 20 (10 + sample_config.refresh_ttl)
        then some (record { user_id = pos 2; is_refresh_token = true })
        else none))
    × (validate_refresh_token sample_json sample_crypto sample_config 20 a ≡ none)
generate-validate_example =
    generate-validate sample_json sample_crypto sample_config 10 20 nonce (pos 2) (omega arith)

validate_session-revoke_session_example :
    (validate_session sample_json sample_crypto sample_config refresh
      (at_time 20 (revoke_session sample_json sample_crypto sample_config access sample).1)).0
    ≡ (if sample_crypto.sha256 access == sample_crypto.sha256 refresh
        then ok none
        else (validate_session sample_json sample_crypto sample_config refresh
            (at_time 20 sample)).0)
validate_session-revoke_session_example =
    validate_session-revoke_session sample_json sample_crypto sample_config access refresh 20 sample

validate_session-revoke_expired_sessions_example :
    (validate_session sample_json sample_crypto sample_config refresh
      (at_time 20 (revoke_expired_sessions sample).1)).0
    ≡ (validate_session sample_json sample_crypto sample_config refresh (at_time 20 sample)).0
validate_session-revoke_expired_sessions_example =
    validate_session-revoke_expired_sessions sample_json sample_crypto sample_config refresh 20
      sample (omega arith)

create_session-validate_session_example :
    (a : Bytes) × (generate_access_token sample_json sample_crypto sample_config 10 nonce (pos 2)
      ≡ ok a)
    × ((create_session sample_json sample_crypto sample_config (nonce, nonce) (pos 2) sample).0
        ≡ ok (record { access_token = a; refresh_token = refresh }))
    × ((validate_session sample_json sample_crypto sample_config refresh (
          at_time 20
            (create_session sample_json sample_crypto sample_config
              (nonce, nonce)
              (pos 2)
              sample).1)).0
        ≡ ok (
            if ltb 20 (10 + sample_config.refresh_ttl)
            then some (record { user_id = pos 2; is_refresh_token = true })
            else none))
unfolding exists_row
create_session-validate_session_example =
    create_session-validate_session sample_json sample_crypto sample_config 20 nonce nonce (pos 2)
      refresh sample (omega arith) refl
      (generate_refresh_token-eq sample_json sample_crypto sample_config 10 nonce (pos 2)
        (omega arith))
      refl

abbrev with_header : Bytes → HttpRequest
with_header token = record {
  authorization = text_of (codes "Bearer " ++ token);
  path_arg = λ name. "";
  arg = λ name. none;
  arg_vector = λ name. [];
}

check_auth-access_token_example :
    check_auth sample_json sample_crypto sample_config true 20 (with_header access) ≡ (
      if leb 20 (10 + sample_config.access_ttl)
      then ok (some (pos 2))
      else err (unauthorized k_access_token_expired))
unfolding signed_area
check_auth-access_token_example =
    check_auth-access_token sample_json sample_crypto sample_config true 10 20 nonce (pos 2) access
      (with_header access) (omega arith)
      (generate_access_token-eq sample_json sample_crypto sample_config 10 nonce (pos 2)
        (omega arith))
      refl

check_auth-refresh_token_example :
    check_auth sample_json sample_crypto sample_config false 20 (with_header refresh)
    ≡ err (
        unauthorized (
          if leb 20 (10 + sample_config.refresh_ttl)
          then k_access_token_invalid
          else k_access_token_expired))
unfolding signed_area
check_auth-refresh_token_example =
    check_auth-refresh_token sample_json sample_crypto sample_config false 10 20 nonce (pos 2)
      refresh (with_header refresh) (omega arith)
      (generate_refresh_token-eq sample_json sample_crypto sample_config 10 nonce (pos 2)
        (omega arith))
      refl

-- A visitor who is signed in.
abbrev token_text : String
token_text = text_of refresh

abbrev signed_in : World
signed_in = record sample {
  db = record sample.db {
    sessions =
        record {
          id = pos 1;
          user_id = pos 2;
          refresh_token_hash = sample_crypto.sha256 (codes token_text);
          expires_at = pos 1000;
        }
        ∷ [];
  };
}

abbrev visitor_payload : TokenPayload
visitor_payload = record { user_id = pos 2; is_refresh_token = true }

abbrev long_nonce : Bytes
long_nonce = 1 ∷ 2 ∷ 3 ∷ []

abbrev renewed : Bytes
renewed = refresh_of sample_json sample_crypto sample_config 10 long_nonce (pos 2)

abbrev refresh_body : sample_json.Value
refresh_body = sample_json.set text sample_json.object "refresh_token" token_text

signed_in-accepted :
    (validate_session sample_json sample_crypto sample_config (codes token_text) signed_in).0
    ≡ ok (some visitor_payload)
unfolding validate_session signed_area find_char rfind_char exists_row ◌>>=◌
signed_in-accepted = refl

refresh_handler-rotates_example :
    let after =
      refresh_handler sample_json sample_crypto sample_config
        (nonce, long_nonce)
        refresh_body
        signed_in in
    (a : Bytes) × (generate_access_token sample_json sample_crypto sample_config 10 nonce (pos 2)
      ≡ ok a)
    × (after.0
        ≡ ok (record {
          status = ok_200;
          body = record { access_token = a; refresh_token = renewed };
        }))
    × ((validate_session sample_json sample_crypto sample_config
          (codes token_text)
          (at_time 20 after.1)).0
        ≡ ok none)
    × ((validate_session sample_json sample_crypto sample_config renewed (at_time 20 after.1)).0
        ≡ ok (if ltb 20 (10 + sample_config.refresh_ttl) then some visitor_payload else none))
unfolding signed_area exists_row
refresh_handler-rotates_example =
    refresh_handler-rotates sample_json sample_crypto sample_config 20 nonce long_nonce refresh_body
      token_text visitor_payload renewed signed_in
      (sample_json.get-set text sample_json.object "refresh_token" token_text) signed_in-accepted
      (omega arith) refl
      (generate_refresh_token-eq sample_json sample_crypto sample_config 10 long_nonce (pos 2)
        (omega arith))
      refl refl
