-- ===== src/Services/Users.antt =====
-- user_service.cpp, with utils/src/hasher.cpp over Argon2.
use pawspective_backend.Base.{
  ℕ, ℤ, ◌≡◌, String, Bool, true, false, not, Option, none, some, List, has_value, ◌==◌, text_Eq,
  if◌then◌else◌,
}
use pawspective_backend.Errors.{
  Exception, unique_violation, user_not_found, user_already_exists, hash_error,
}
use pawspective_backend.Models.Records.{User}
use pawspective_backend.Models.Dto.{UserRegisterDto, UserUpdateDto}
use pawspective_backend.Models.Convert.{user_from_register_dto, user_from_update_dto}
use pawspective_backend.Exec.{Exec, pure, throw_if, or_throw, rethrow, ◌>>=◌, ◌>>◌}
use pawspective_backend.Repositories.Users

unfoldable pub get_user_by_id : ℤ → Exec User
unfolding Users.get_by_id
get_user_by_id user_id = do row ← Users.get_by_id user_id; or_throw row user_not_found

unfoldable pub get_users_by_ids : List ℤ → Exec (List User)
unfolding Users.get_by_ids
get_users_by_ids ids = Users.get_by_ids ids

unfoldable pub get_organization_id : ℤ → Exec (Option ℤ)
unfolding Users.get_organization_id_by_user_id
get_organization_id user_id = Users.get_organization_id_by_user_id user_id

unfoldable pub link_organization : ℤ → ℤ → Exec User
unfolding Users.link_organization
link_organization user_id organization_id = Users.link_organization user_id organization_id

unfoldable pub can_user_create_organization : ℤ → Exec Bool
unfolding Users.check_can_create_shelter
can_user_create_organization user_id = Users.check_can_create_shelter user_id

unfoldable pub delete_user : ℤ → Exec (Unit {0})
unfolding Users.get_by_id Users.delete_user
delete_user user_id = do
  row ← Users.get_by_id user_id
  throw_if (not (has_value row)) user_not_found
  deleted ← Users.delete_user user_id
  throw_if (not deleted) user_not_found

-- catch (const UniqueViolation&) { throw UserAlreadyExistsException(); }
abbrev pub taken_email : Exception → Exception
taken_email unique_violation = user_already_exists
taken_email e = e

-- Argon2: `hash` takes the salt that the call draws and may fail, `verify` is `argon2id_verify`.
pub data Verdict : Type 0 where
  argon2_ok argon2_verify_mismatch argon2_error : Verdict

abbrev is_match : Verdict → Bool
is_match argon2_ok = true
is_match _ = false

pub record Argon2 : Type 0 where
  pub hash : ℕ → String → Option String
  pub verify : String → String → Verdict
  -- a password verifies against each of its hashes, and no hash is the empty text
  pub verify-hash :
      (salt : ℕ) (password hashed : String)
      → hash salt password ≡ some hashed
      → (verify hashed password ≡ argon2_ok) × ((hashed == "") ≡ false)

module _ (argon2 : Argon2) where
  unfoldable pub generate_hash : ℕ → String → Exec String
  generate_hash salt password = or_throw (argon2.hash salt password) hash_error

  unfoldable pub verify_hash : String → String → Bool
  verify_hash password hashed =
      if hashed == "" then false else is_match (argon2.verify hashed password)

  unfoldable pub register_user : ℕ → UserRegisterDto → Exec User
  unfolding Users.get_by_email Users.create_user generate_hash
  register_user salt dto = do
    row ← Users.get_by_email dto.email
    throw_if (has_value row) user_already_exists
    password_hash ← generate_hash salt dto.password
    rethrow taken_email
        (Users.create_user (record (user_from_register_dto dto) { password_hash = password_hash }))

  unfoldable pub authenticate_user : String → String → Exec User
  unfolding Users.get_by_email verify_hash
  authenticate_user email password = do
    row ← Users.get_by_email email
    user ← or_throw row user_not_found
    throw_if (not (verify_hash password user.password_hash)) user_not_found
    pure user

  abbrev pub new_hash : ℕ → Option String → String → Exec String
  new_hash salt none unchanged = pure unchanged
  new_hash salt (some password) unchanged = generate_hash salt password

  unfoldable pub update_user : ℕ → ℤ → UserUpdateDto → Exec User
  unfolding Users.get_by_id Users.update_user generate_hash
  update_user salt user_id dto = do
    password_hash ← new_hash salt dto.password (user_from_update_dto dto).password_hash
    row ← Users.get_by_id user_id
    throw_if (not (has_value row)) user_not_found
    rethrow taken_email (
        Users.update_user user_id
          (record (user_from_update_dto dto) { password_hash = password_hash }))
