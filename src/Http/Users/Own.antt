-- ===== src/Http/Users/Own.antt =====
-- UserDeleteHandler.
use pawspective_backend.Base.{
  ℤ, ◌≡◌, refl, Option, none, some, ◌==◌, id_Eq, Bool-cases, Option-cases, inl, inr, if◌then◌else◌,
}
use pawspective_backend.HttpErrors.{
  HttpStatus, no_content_204, bad_request_400, forbidden_403, not_found_404,
}
use pawspective_backend.Errors.{Result, ok, err, Result-cases}
use pawspective_backend.Models.Records.{User}
use pawspective_backend.Db.Table.{find}
use pawspective_backend.Db.Tables.{World, User-keyed}
use pawspective_backend.Db.Cascade
use pawspective_backend.Adoption.Step.{has-find}
use pawspective_backend.Exec.{rethrow, or_throw, throw_if, ◌>>=◌}
use pawspective_backend.Services.Users.{delete_user}
use pawspective_backend.Std.Chars.{codes}
use pawspective_backend.Std.Decimal.{stoll}
use pawspective_backend.Http.Request.{HttpRequest, answer, get_user_id, path_id}
use pawspective_backend.Http.Users.{delete_handler}

abbrev account_answer : ℤ → Option User → World → HttpStatus × World
account_answer id none w = (not_found_404, w)
account_answer id (some user) w = (no_content_204, record w { db = Cascade.delete_user id w.db })

abbrev pub delete_answer : ℤ → Result ℤ → World → HttpStatus × World
delete_answer user_id (err e) w = (bad_request_400, w)
delete_answer user_id (ok id) w =
    if user_id == id then account_answer id (find id w.db.users) w else (forbidden_403, w)

-- For a user that the auth checker has let through, the answers to the deletion of an account: an
-- id that is no number is answered by 400, the id of another user by 403 and an account that is
-- not there by 404, with the state left as it is; else 204 is answered, and the account is deleted
-- with what the schema deletes with it, and nothing else changes.
pub delete_handler-eq-delete_answer :
    (user_id : ℤ) (request : HttpRequest) (w : World)
    → answer (delete_handler (some user_id) request w)
      ≡ delete_answer user_id (stoll (codes (request.path_arg "id"))) w
unfolding delete_handler delete_user get_user_id path_id rethrow or_throw throw_if ◌>>=◌
delete_handler-eq-delete_answer user_id request w =
    elim (Result-cases (stoll (codes (request.path_arg "id")))) [
      | inr (e, unreadable) ↦ rw unreadable refl
      | inl (id, read) ↦ elim (Bool-cases (user_id == id)) [
        | inr other ↦ rw (read, other) refl
        | inl own ↦ elim (Option-cases (find id w.db.users)) [
          | inl gone ↦ rw (read, own, gone) refl
          | inr (user, found) ↦
              let there = has-find _ w.db.users user found in rw (read, own, found, there) refl
        ]
      ]
    ]
