-- ===== src/Tokens/Sessions/Revocation.antt =====
-- What PgSessionService accepts after a session is revoked and after expired ones are cleaned away.
use pawspective_backend.Base.{
  ℕ, ◌≤◌, ℤ, pos, negsuc, String, ◌≡◌, refl, arith, Bool, true, false, not, ◌&&◌, Option, none,
  some, List, [], ◌∷◌, ◌==◌, text_Eq, id_leb, Bool-cases, Option-cases, inl, inr, and-parts,
  if◌then◌else◌,
}
use pawspective_backend.Errors.{Result, ok}
use pawspective_backend.Models.Records.{Session}
use pawspective_backend.Db.Table.{reject, exists_row}
use pawspective_backend.Db.Tables.{World}
use pawspective_backend.Exec.{◌>>=◌}
use pawspective_backend.Std.Chars.{Bytes}
use pawspective_backend.Tokens.Libraries.{Json, Crypto}
use pawspective_backend.Tokens.Jwt.{TokenPayload, JwtConfig, validate_refresh_token}
use pawspective_backend.Tokens.Sessions.{
  has_hash, is_after, is_before, if_stored, revoke_expired_sessions, validate_session,
  revoke_session,
}

-- The same state at another time.
abbrev pub at_time : ℕ → World → World
at_time t w = record w { db = record w.db { now = t } }

-- A query that only rejected rows answer finds none.
exists_row-reject_all :
    {Row : Type 0} (p q : Row → Bool) (rows : List Row)
    → ((r : Row) → p r ≡ true → q r ≡ true)
    → exists_row p (reject q rows) ≡ false
unfolding exists_row reject
exists_row-reject_all p q [] h = refl
exists_row-reject_all p q (r ∷ rows) h = ground (arith, h r, exists_row-reject_all p q rows h)

-- A query that no rejected row answers stays.
pub exists_row-reject_none :
    {Row : Type 0} (p q : Row → Bool) (rows : List Row)
    → ((r : Row) → p r ≡ true → q r ≡ false)
    → exists_row p (reject q rows) ≡ exists_row p rows
unfolding exists_row reject
exists_row-reject_none p q [] h = refl
exists_row-reject_none p q (r ∷ rows) h = ground (arith, h r, exists_row-reject_none p q rows h)

-- A session that has not expired at `t` had not before.
after-before :
    (e : ℤ) (now t : ℕ) → now ≤ t → not (id_leb e (pos t)) ≡ true → not (id_leb (pos now) e) ≡ false
after-before (pos e) now t h k = ground arith
after-before (negsuc e) now t h k = cc

if_same : {A : Type 0} (b : Bool) (x : A) → x ≡ (if b then x else x)
if_same true x = refl
if_same false x = refl

stored_if :
    (b : Bool) (payload : Option TokenPayload) (stored : Bool)
    → ◌≡◌ {A = Result (Option TokenPayload)}
        (ok (if_stored payload (if b then false else stored)))
        (if b then ok none else ok (if_stored payload stored))
stored_if true payload stored = refl
stored_if false payload stored = refl

other_hash :
    (h g : String) (s : Session) → (h == g) ≡ false → has_hash g s ≡ true → has_hash h s ≡ false
other_hash h g s different hit = ground (
  arith,
  text_Eq.same_iff h g,
  text_Eq.same_iff s.refresh_token_hash g,
  text_Eq.same_iff s.refresh_token_hash h,
)

-- A query by hash and time over the rows that a revocation leaves.
exists_row-revoked :
    (h g : String) (t : ℕ) (sessions : List Session)
    → exists_row
        (λ (s : Session). has_hash g s && is_after (pos t) s)
        (reject (has_hash h) sessions)
      ≡ (if h == g
          then false
          else exists_row (λ (s : Session). has_hash g s && is_after (pos t) s) sessions)
exists_row-revoked h g t sessions = elim (Bool-cases (h == g)) [
  | inl same ↦
      let e : h ≡ g = (text_Eq.same_iff h g).0 same in
      rw same (
        exists_row-reject_all _ _ sessions
          (λ s hit. rw e (and-parts (has_hash g s) (is_after (pos t) s) hit).0))
  | inr different ↦ rw different (
      exists_row-reject_none _ _ sessions
        (λ s hit. other_hash h g s different (and-parts (has_hash g s) (is_after (pos t) s) hit).0))
]

module _ (json : Json) (crypto : Crypto) (config : JwtConfig) where
  -- Revoking a token: from then on it is refused at every time, and so is every token with the
  -- same hash, while every other token is accepted or refused as before.
  pub validate_session-revoke_session :
      (revoked token : Bytes) (t : ℕ) (w : World)
      → (validate_session json crypto config token
          (at_time t (revoke_session json crypto config revoked w).1)).0
        ≡ (if crypto.sha256 revoked == crypto.sha256 token
            then ok none
            else (validate_session json crypto config token (at_time t w)).0)
  unfolding validate_session revoke_session ◌>>=◌
  validate_session-revoke_session revoked token t w =
      elim (Option-cases (validate_refresh_token json crypto config t token)) [
        | inl refused ↦
            rw refused (if_same (crypto.sha256 revoked == crypto.sha256 token) (ok none))
        | inr (payload, accepted) ↦
            rw
              (
                accepted,
                exists_row-revoked (crypto.sha256 revoked) (crypto.sha256 token) t w.db.sessions,
              )
              (stored_if (crypto.sha256 revoked == crypto.sha256 token) (some payload) _)
      ]

  -- Cleaning away the expired sessions is not noticed: at every time from then on each token is
  -- accepted or refused as it would have been.
  pub validate_session-revoke_expired_sessions :
      (token : Bytes) (t : ℕ) (w : World)
      → w.db.now ≤ t
      → (validate_session json crypto config token (at_time t (revoke_expired_sessions w).1)).0
        ≡ (validate_session json crypto config token (at_time t w)).0
  unfolding validate_session revoke_expired_sessions ◌>>=◌
  validate_session-revoke_expired_sessions token t w h =
      elim (Option-cases (validate_refresh_token json crypto config t token)) [
        | inl refused ↦ rw refused refl
        | inr (payload, accepted) ↦
            rw
              (
                accepted,
                exists_row-reject_none
                    (λ (s : Session). has_hash (crypto.sha256 token) s && is_after (pos t) s)
                    (is_before (pos w.db.now)) w.db.sessions
                    (λ s hit.
                      after-before s.expires_at w.db.now t h
                        (and-parts (has_hash (crypto.sha256 token) s) (is_after (pos t) s) hit).1),
              )
              refl
      ]

  -- Validation does not change the state.
  pub validate_session-state :
      (token : Bytes) (w : World) → (validate_session json crypto config token w).1 ≡ w
  unfolding validate_session ◌>>=◌
  validate_session-state token w =
      elim (Option-cases (validate_refresh_token json crypto config w.db.now token)) [
        | inl refused ↦ rw refused refl
        | inr (payload, accepted) ↦ rw accepted refl
      ]
