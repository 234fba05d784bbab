-- ===== src/Tokens/Sessions/Lifetime.antt =====
-- A session from its creation on.
use pawspective_backend.Base.{
  ℕ, suc, ◌+◌, ℤ, pos, String, ◌≡◌, refl, ap, ◌∙◌, arith, Bool, true, false, ◌&&◌, ◌||◌, none, some,
  List, [], ◌∷◌, ◌++◌, ltb, leb, ◌==◌, text_Eq, Bool-cases, Option-cases, inl, inr, if◌then◌else◌,
}
use mathlib.Core.Path.{subst}
use pawspective_backend.Errors.{ok}
use pawspective_backend.Models.Records.{Session}
use pawspective_backend.Db.Table.{exists_row, has}
use pawspective_backend.Db.Tables.{World, User-keyed}
use pawspective_backend.Exec.{◌>>=◌, throw_if}
use pawspective_backend.Std.Chars.{Bytes}
use pawspective_backend.Std.Decimal.{Int64}
use pawspective_backend.Tokens.Libraries.{Json, Crypto}
use pawspective_backend.Tokens.Jwt.{
  TokenPayload, JwtConfig, generate_access_token, generate_refresh_token, extract_expiration_time,
  validate_refresh_token,
}
use pawspective_backend.Tokens.Jwt.RoundTrip.{
  access_of, refresh_of, generate_access_token-eq, generate_refresh_token-eq,
  validate_refresh_token-refresh_of, extract_expiration_time-payload,
}
use pawspective_backend.Tokens.Sessions.{
  has_hash, is_after, new_session, create_session, validate_session,
}
use pawspective_backend.Tokens.Sessions.Revocation.{at_time}

exists_row-append :
    {Row : Type 0} (p : Row → Bool) (rows : List Row) (r : Row)
    → exists_row p (rows ++ r ∷ []) ≡ (exists_row p rows || p r)
unfolding exists_row
exists_row-append p [] r = ground arith
exists_row-append p (x ∷ rows) r = ground (arith, exists_row-append p rows r)

or_false : (b : Bool) → (b || false) ≡ b
or_false true = refl
or_false false = refl

exists_row-and :
    {Row : Type 0} (p q : Row → Bool) (rows : List Row)
    → exists_row p rows ≡ false
    → exists_row (λ r. p r && q r) rows ≡ false
unfolding exists_row
exists_row-and p q [] h = refl
exists_row-and p q (x ∷ rows) h = ground (arith, exists_row-and p q rows)

-- The new session alone decides whether its token is stored.
exists_row-new :
    (hash : String) (t : ℕ) (sessions : List Session) (id user_id : ℤ) (expires : ℕ)
    → exists_row (has_hash hash) sessions ≡ false
    → exists_row
        (λ (s : Session). has_hash hash s && is_after (pos t) s)
        (sessions ++ new_session id user_id hash (pos expires) ∷ [])
      ≡ ltb t expires
exists_row-new hash t sessions id user_id expires fresh =
    let p = λ (s : Session). has_hash hash s && is_after (pos t) s in
    let same : (hash == hash) ≡ true = (text_Eq.same_iff hash hash).1 refl in
    exists_row-append p sessions (new_session id user_id hash (pos expires))
    ∙ rw (exists_row-and (has_hash hash) (is_after (pos t)) sessions fresh, same) (ground arith)

module _ (json : Json) (crypto : Crypto) (config : JwtConfig) where
  -- The state with the new session.
  abbrev pub inserted : ℤ → String → ℕ → World → World
  inserted user_id hash expires w = record w {
    db = record w.db {
      next_session = suc w.db.next_session;
      sessions =
          w.db.sessions ++ new_session (pos w.db.next_session) user_id hash (pos expires) ∷ [];
    };
  }

  pub create_session-eq :
      (access_nonce refresh_nonce : Bytes) (user_id : ℤ) (expires : ℕ) (access refresh : Bytes)
      (w : World)
      → generate_access_token json crypto config w.db.now access_nonce user_id ≡ ok access
      → generate_refresh_token json crypto config w.db.now refresh_nonce user_id ≡ ok refresh
      → extract_expiration_time json crypto config refresh ≡ ok (pos expires)
      → exists_row (has_hash (crypto.sha256 refresh)) w.db.sessions ≡ false
      → has w.db.users user_id ≡ true
      → create_session json crypto config (access_nonce, refresh_nonce) user_id w ≡ (
        ok (record { access_token = access; refresh_token = refresh }),
        inserted user_id (crypto.sha256 refresh) expires w,
      )
  unfolding create_session ◌>>=◌ throw_if
  create_session-eq access_nonce refresh_nonce user_id expires access refresh w a r e fresh known =
      rw (a, r, e, fresh, known) refl

  validate_session-inserted :
      (t : ℕ) (user_id : ℤ) (expires : ℕ) (refresh : Bytes) (w : World) (payload : TokenPayload)
      → validate_refresh_token json crypto config t refresh
        ≡ (if leb t expires then some payload else none)
      → exists_row (has_hash (crypto.sha256 refresh)) w.db.sessions ≡ false
      → (validate_session json crypto config refresh
          (at_time t (inserted user_id (crypto.sha256 refresh) expires w))).0
        ≡ ok (if ltb t expires then some payload else none)
  unfolding validate_session ◌>>=◌
  validate_session-inserted t user_id expires refresh w payload accepted fresh =
      let stored =
        exists_row-new (crypto.sha256 refresh) t w.db.sessions (pos w.db.next_session) user_id
          expires fresh in
      elim (Bool-cases (leb t expires)) [
        | inl early ↦ rw (accepted, early, stored) refl
        | inr late ↦
            let gone : ltb t expires ≡ false = ground arith in rw (accepted, late, gone) refl
      ]

  -- What creating a session does for a known user where the hash is not taken.
  pub create_session-run :
      (access_nonce refresh_nonce : Bytes) (user_id : ℤ) (refresh : Bytes) (w : World)
      → Int64 user_id
      → has w.db.users user_id ≡ true
      → generate_refresh_token json crypto config w.db.now refresh_nonce user_id ≡ ok refresh
      → exists_row (has_hash (crypto.sha256 refresh)) w.db.sessions ≡ false
      → create_session json crypto config (access_nonce, refresh_nonce) user_id w ≡ (
        ok (record {
          access_token = access_of json crypto config w.db.now access_nonce user_id;
          refresh_token = refresh;
        }),
        inserted user_id (crypto.sha256 refresh) (w.db.now + config.refresh_ttl) w,
      )
  create_session-run access_nonce refresh_nonce user_id refresh w h known made fresh =
      let now = w.db.now in
      let same : refresh_of json crypto config now refresh_nonce user_id ≡ refresh =
        cc (generate_refresh_token-eq json crypto config now refresh_nonce user_id h) in
      let lasts =
        subst
          (λ r. extract_expiration_time json crypto config r ≡ ok (pos (now + config.refresh_ttl)))
          same
          (extract_expiration_time-payload json crypto config now refresh_nonce user_id true
            config.refresh_ttl) in
      create_session-eq access_nonce refresh_nonce user_id (now + config.refresh_ttl) _ refresh w
        (generate_access_token-eq json crypto config now access_nonce user_id h) made lasts fresh
        known

  pub validate_session-new :
      (t : ℕ) (nonce : Bytes) (user_id : ℤ) (refresh : Bytes) (w : World)
      → Int64 user_id
      → generate_refresh_token json crypto config w.db.now nonce user_id ≡ ok refresh
      → exists_row (has_hash (crypto.sha256 refresh)) w.db.sessions ≡ false
      → (validate_session json crypto config refresh (
          at_time t (inserted user_id (crypto.sha256 refresh) (w.db.now + config.refresh_ttl) w))).0
        ≡ ok (
            if ltb t (w.db.now + config.refresh_ttl)
            then some (record { user_id = user_id; is_refresh_token = true })
            else none)
  validate_session-new t nonce user_id refresh w h made fresh =
      let now = w.db.now in
      let same : refresh_of json crypto config now nonce user_id ≡ refresh =
        cc (generate_refresh_token-eq json crypto config now nonce user_id h) in
      let accepted =
        subst
          (λ r. validate_refresh_token json crypto config t r ≡ (
            if leb t (now + config.refresh_ttl)
            then some (record { user_id = user_id; is_refresh_token = true })
            else none))
          same (validate_refresh_token-refresh_of json crypto config now t nonce user_id) in
      validate_session-inserted t user_id (now + config.refresh_ttl) refresh w _ accepted fresh

  -- A new session changes nothing for a token with another hash.
  pub validate_session-other :
      (t : ℕ) (user_id : ℤ) (hash : String) (expires : ℕ) (token : Bytes) (w : World)
      → (hash == crypto.sha256 token) ≡ false
      → (validate_session json crypto config token (at_time t (inserted user_id hash expires w))).0
        ≡ (validate_session json crypto config token (at_time t w)).0
  unfolding validate_session ◌>>=◌
  validate_session-other t user_id hash expires token w other =
      let row = new_session (pos w.db.next_session) user_id hash (pos expires) in
      let p = λ (s : Session). has_hash (crypto.sha256 token) s && is_after (pos t) s in
      elim (Option-cases (validate_refresh_token json crypto config t token)) [
        | inl refused ↦ rw refused refl
        | inr (payload, accepted) ↦
            rw
              (
                accepted,
                exists_row-append p w.db.sessions row,
                other,
                or_false (exists_row p w.db.sessions),
              )
              refl
      ]

  -- For a known user, a new session whose token's hash is not stored yet is created with that
  -- token, and the token is accepted with the user's id just before it expires, never after.
  pub create_session-validate_session :
      (t : ℕ) (access_nonce refresh_nonce : Bytes) (user_id : ℤ) (refresh : Bytes) (w : World)
      → Int64 user_id
      → has w.db.users user_id ≡ true
      → generate_refresh_token json crypto config w.db.now refresh_nonce user_id ≡ ok refresh
      → exists_row (has_hash (crypto.sha256 refresh)) w.db.sessions ≡ false
      → (access : Bytes) × (generate_access_token json crypto config w.db.now access_nonce user_id
          ≡ ok access)
        × ((create_session json crypto config (access_nonce, refresh_nonce) user_id w).0
            ≡ ok (record { access_token = access; refresh_token = refresh }))
        × ((validate_session json crypto config refresh (
              at_time t
                (create_session json crypto config (access_nonce, refresh_nonce) user_id w).1)).0
            ≡ ok (
                if ltb t (w.db.now + config.refresh_ttl)
                then some (record { user_id = user_id; is_refresh_token = true })
                else none))
  create_session-validate_session t access_nonce refresh_nonce user_id refresh w h known made
        fresh =
      let run =
        create_session-run access_nonce refresh_nonce user_id refresh w h known made fresh in
      (
        access_of json crypto config w.db.now access_nonce user_id,
        generate_access_token-eq json crypto config w.db.now access_nonce user_id h,
        ap (λ o. o.0) run,
        ap (λ o. (validate_session json crypto config refresh (at_time t o.1)).0) run
            ∙ validate_session-new t refresh_nonce user_id refresh w h made fresh,
      )
