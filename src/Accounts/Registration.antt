-- ===== src/Accounts/Registration.antt =====
-- UserService::RegisterUser and UserService::AuthenticateUser.
use pawspective_backend.Base.{
  ℕ, pos, ◌≡◌, refl, String, Bool, true, false, ◌++◌, ◌∷◌, [], ◌==◌, text_Eq, none, some, List,
  Bool-cases, Option-cases, inl, inr,
}
use pawspective_backend.Errors.{ok, err, user_already_exists, hash_error}
use pawspective_backend.Models.Records.{User}
use pawspective_backend.Models.Dto.{UserRegisterDto}
use pawspective_backend.Models.Convert.{user_from_register_dto}
use pawspective_backend.Db.Table.{first_row, exists_row}
use pawspective_backend.Db.Tables.{World}
use pawspective_backend.Exec.{◌>>=◌, throw_if, or_throw, rethrow}
use pawspective_backend.Services.Users.{Argon2, register_user, authenticate_user}

first_row-append :
    {Row : Type 0} (p : Row → Bool) (rows : List Row) (r : Row)
    → first_row p rows ≡ none
    → p r ≡ true
    → first_row p (rows ++ r ∷ []) ≡ some r
unfolding first_row
first_row-append p [] r e h = rw h refl
first_row-append p (x ∷ rows) r e h = elim (Bool-cases (p x)) [
  | inl hit ↦ let wrong : some x ≡ none = rw hit at e in cc
  | inr miss ↦ rw miss (first_row-append p rows r (rw miss at e) h)
]

first_row-none :
    {Row : Type 0} (p : Row → Bool) (rows : List Row)
    → first_row p rows ≡ none
    → exists_row p rows ≡ false
unfolding first_row exists_row
first_row-none p [] e = refl
first_row-none p (x ∷ rows) e = elim (Bool-cases (p x)) [
  | inl hit ↦ let wrong : some x ≡ none = rw hit at e in cc
  | inr miss ↦ rw miss (first_row-none p rows (rw miss at e))
]

text_refl : (s : String) → (s == s) ≡ true
text_refl s = (text_Eq.same_iff s s).1 refl

-- A user who has registered can sign in with the same e-mail address and password, and gets the
-- account that the registration returned.
pub register_user-authenticate_user :
    (argon2 : Argon2) (salt : ℕ) (dto : UserRegisterDto) (w : World) (user : User)
    → (register_user argon2 salt dto w).0 ≡ ok user
    → (authenticate_user argon2 dto.email dto.password (register_user argon2 salt dto w).1).0
      ≡ ok user
unfolding register_user authenticate_user ◌>>=◌ throw_if or_throw rethrow
register_user-authenticate_user argon2 salt dto w user e =
    elim (Option-cases (first_row (λ (u : User). u.email == dto.email) w.db.users)) [
      | inr (u, taken) ↦ let wrong : err user_already_exists ≡ ok user = rw taken at e in cc
      | inl free ↦ elim (Option-cases (argon2.hash salt dto.password)) [
        | inl failed ↦ let wrong : err hash_error ≡ ok user = rw (free, failed) at e in cc
        | inr (hashed, made) ↦
            let (verifies, filled) = argon2.verify-hash salt dto.password hashed made in
            let new : User = record (user_from_register_dto dto) {
              id = pos w.db.next_user;
              password_hash = hashed;
            } in
            let unique = first_row-none _ w.db.users free in
            let same : ok new ≡ ok user = rw (free, made, unique) at e in
            let found =
              first_row-append (λ (u : User). u.email == dto.email) w.db.users new free
                (text_refl dto.email) in
            rw (free, made, unique, found, filled, verifies) same
      ]
    ]
