-- ===== src/Tokens/Sessions.antt =====
-- services/src/pg_session_service.cpp. The clock of the server and that of the database agree, and
-- `expires_at` is in seconds.
pub mod Revocation
pub mod Lifetime
use pawspective_backend.Base.{
  ℕ, suc, ℤ, pos, String, Bool, not, Option, none, some, List, [], ◌∷◌, ◌++◌, length, ltb, ◌&&◌,
  ◌==◌, text_Eq, id_leb, if◌then◌else◌,
}
use pawspective_backend.Errors.{unique_violation, foreign_key_violation}
use pawspective_backend.Models.Records.{Session}
use pawspective_backend.Db.Table.{where_rows, reject, exists_row, has}
use pawspective_backend.Db.Tables.{Db, World, User-keyed}
use pawspective_backend.Exec.{Exec, pure, reads, writes, lift, throw_if, ◌>>=◌, ◌>>◌}
use pawspective_backend.Std.Chars.{Bytes}
use pawspective_backend.Tokens.Libraries.{Json, Crypto}
use pawspective_backend.Tokens.Jwt.{
  TokenPayload, JwtConfig, generate_access_token, generate_refresh_token, extract_expiration_time,
  validate_refresh_token,
}

pub record SessionBundle : Type 0 where
  pub access_token : Bytes
  pub refresh_token : Bytes

abbrev pub has_hash : String → Session → Bool
has_hash hash s = s.refresh_token_hash == hash

-- expires_at > NOW() and expires_at < NOW()
abbrev pub is_after : ℤ → Session → Bool
is_after now s = not (id_leb s.expires_at now)

abbrev pub is_before : ℤ → Session → Bool
is_before now s = not (id_leb now s.expires_at)

abbrev pub new_session : ℤ → ℤ → String → ℤ → Session
new_session id user_id hash expires_at = record {
  id = id;
  user_id = user_id;
  refresh_token_hash = hash;
  expires_at = expires_at;
}

-- INSERT INTO auth_schema.sessions
unfoldable pub insert_session : ℤ → String → ℤ → Exec (Unit {0})
insert_session user_id hash expires_at = do
  id ← reads (λ db. pos db.next_session)
  writes (λ db. record db { next_session = suc db.next_session })
  taken ← reads (λ db. exists_row (has_hash hash) db.sessions)
  throw_if taken unique_violation
  known ← reads (λ db. has db.users user_id)
  throw_if (not known) foreign_key_violation
  writes (λ db. record db { sessions = db.sessions ++ new_session id user_id hash expires_at ∷ [] })

unfoldable pub revoke_expired_sessions : Exec ℕ
revoke_expired_sessions = do
  gone ← reads (λ db. length (where_rows (is_before (pos db.now)) db.sessions))
  writes (λ db. record db { sessions = reject (is_before (pos db.now)) db.sessions })
  pure gone

-- return res.IsEmpty() ? std::nullopt : payload;
abbrev pub if_stored : Option TokenPayload → Bool → Option TokenPayload
if_stored payload stored = if stored then payload else none

module _ (json : Json) (crypto : Crypto) (config : JwtConfig) where
  -- `nonces` are the random blocks of the two tokens.
  unfoldable pub create_session : Bytes × Bytes → ℤ → Exec SessionBundle
  unfolding generate_access_token generate_refresh_token extract_expiration_time insert_session
  create_session (access_nonce, refresh_nonce) user_id = do
    now ← reads (λ db. db.now)
    access_token ← lift (generate_access_token json crypto config now access_nonce user_id)
    refresh_token ← lift (generate_refresh_token json crypto config now refresh_nonce user_id)
    let hash = crypto.sha256 refresh_token
    expired_time ← lift (extract_expiration_time json crypto config refresh_token)
    insert_session user_id hash expired_time
    pure (record { access_token = access_token; refresh_token = refresh_token })

  abbrev pub stored_payload : Bytes → Option TokenPayload → Exec (Option TokenPayload)
  stored_payload refresh_token none = pure none
  stored_payload refresh_token (some payload) = do
    let hash = crypto.sha256 refresh_token
    stored ← reads (λ db. exists_row (λ s. has_hash hash s && is_after (pos db.now) s) db.sessions)
    pure (if_stored (some payload) stored)

  unfoldable pub validate_session : Bytes → Exec (Option TokenPayload)
  unfolding validate_refresh_token
  validate_session refresh_token = do
    now ← reads (λ db. db.now)
    stored_payload refresh_token (validate_refresh_token json crypto config now refresh_token)

  unfoldable pub revoke_session : Bytes → Exec (Unit {0})
  revoke_session refresh_token =
      writes
        (λ db. record db { sessions = reject (has_hash (crypto.sha256 refresh_token)) db.sessions })
