-- ===== src/Http/Adoption/Statuses.antt =====
-- What AdoptRequestAcceptHandler and AdoptRequestDenyHandler answer.
use pawspective_backend.Base.{
  ℤ, ◌≡◌, refl, ap, ◌∙◌, Option, none, some, id_Eq, Bool-cases, Option-cases, inl, inr,
  if◌then◌else◌,
}
use pawspective_backend.HttpErrors.{
  HttpStatus, no_content_204, bad_request_400, forbidden_403, not_found_404,
  internal_server_error_500,
}
use pawspective_backend.Errors.{Result, ok, err, Result-cases}
use pawspective_backend.Models.Records.{Animal, AdoptRequest}
use pawspective_backend.Db.Table.{find, reject, has_key}
use pawspective_backend.Db.Tables.{World, User-keyed, Animal-keyed, AdoptRequest-keyed}
use pawspective_backend.Db.Consistent.{IsConsistent}
use pawspective_backend.Exec.{pure, continue, rethrown, rethrow, or_throw, ◌>>=◌}
use pawspective_backend.Repositories.Users.{organization_of}
use pawspective_backend.Repositories.Animals.{is_available}
use pawspective_backend.Services.Catalogue.{is_stranger}
use pawspective_backend.Adoption.Step.{step}
use pawspective_backend.Adoption.Accept.{accepted, accept_request, accept-eq-rule}
use pawspective_backend.Adoption.Request.{deny_request, deny-eq-rule}
use pawspective_backend.Std.Chars.{codes}
use pawspective_backend.Std.Decimal.{stoll}
use pawspective_backend.Http.Request.{HttpRequest, get_user_id, path_id, answer}
use pawspective_backend.Http.Adoption.{decision_exceptions, accept_handler, deny_handler}

abbrev accept_animal_answer : Option ℤ → AdoptRequest → Option Animal → World → HttpStatus × World
accept_animal_answer org request none w = (internal_server_error_500, w)
accept_animal_answer org request (some animal) w =
    if is_stranger org animal.organization_id
    then (forbidden_403, w)
    else if is_available animal.status
    then (no_content_204, record w { db = accepted request animal w.db })
    else (internal_server_error_500, w)

abbrev accept_request_answer : Option ℤ → Option AdoptRequest → World → HttpStatus × World
accept_request_answer org none w = (not_found_404, w)
accept_request_answer org (some request) w =
    accept_animal_answer org request (find request.animal_id w.db.animals) w

-- The answer to a user who accepts the request of an id that was read from the path.
abbrev pub accept_answer : ℤ → Result ℤ → World → HttpStatus × World
accept_answer user_id (err e) w = (bad_request_400, w)
accept_answer user_id (ok request_id) w =
    accept_request_answer (organization_of (find user_id w.db.users))
      (find request_id w.db.adopt_requests) w

abbrev deny_animal_answer : Option ℤ → ℤ → Option Animal → World → HttpStatus × World
deny_animal_answer org request_id none w = (internal_server_error_500, w)
deny_animal_answer org request_id (some animal) w =
    if is_stranger org animal.organization_id then (forbidden_403, w) else (
      no_content_204,
      record w {
        db = record w.db { adopt_requests = reject (has_key request_id) w.db.adopt_requests };
      },
    )

abbrev deny_request_answer : Option ℤ → ℤ → Option AdoptRequest → World → HttpStatus × World
deny_request_answer org request_id none w = (not_found_404, w)
deny_request_answer org request_id (some request) w =
    deny_animal_answer org request_id (find request.animal_id w.db.animals) w

abbrev pub deny_answer : ℤ → Result ℤ → World → HttpStatus × World
deny_answer user_id (err e) w = (bad_request_400, w)
deny_answer user_id (ok request_id) w =
    deny_request_answer (organization_of (find user_id w.db.users)) request_id
      (find request_id w.db.adopt_requests) w

-- The end of both handlers, after the call of the service.
abbrev decided : Result (Unit {0}) × World → HttpStatus × World
decided o = answer (
    continue (rethrown decision_exceptions o.0)
      (λ _. pure (record { status = no_content_204; body = tt })) o.1)

decided-accept :
    (org : Option ℤ) (request : Option AdoptRequest) (w : World)
    → decided (step w (accept_request org request w.db)) ≡ accept_request_answer org request w
decided-accept org none w = refl
decided-accept org (some request) w = elim (Option-cases (find request.animal_id w.db.animals)) [
  | inl gone ↦ rw gone refl
  | inr (animal, found) ↦ elim (Bool-cases (is_stranger org animal.organization_id)) [
    | inl stranger ↦ rw (found, stranger) refl
    | inr own ↦ elim (Bool-cases (is_available animal.status)) [
      | inl free ↦ rw (found, own, free) refl
      | inr taken ↦ rw (found, own, taken) refl
    ]
  ]
]

decided-deny :
    (org : Option ℤ) (request_id : ℤ) (request : Option AdoptRequest) (w : World)
    → decided (step w (deny_request org request_id request w.db))
      ≡ deny_request_answer org request_id request w
decided-deny org request_id none w = refl
decided-deny org request_id (some request) w =
    elim (Option-cases (find request.animal_id w.db.animals)) [
      | inl gone ↦ rw gone refl
      | inr (animal, found) ↦ elim (Bool-cases (is_stranger org animal.organization_id)) [
        | inl stranger ↦ rw (found, stranger) refl
        | inr own ↦ rw (found, own) refl
      ]
    ]

-- With every foreign key met, and for a user that the auth checker has let through, the answers
-- to accepting and to denying a request: an id that is no number is answered by 400, an unknown
-- request by 404 and a user of another organization by 403, with the state left as it is; else
-- 204 is answered and the request is accepted or deleted, but for accepting a request for an
-- animal that is not available, which ends in an internal error with nothing changed.
pub decision_handlers-eq-answer :
    (user_id : ℤ) (request : HttpRequest) (w : World)
    → IsConsistent w.db
    → (answer (accept_handler (some user_id) request w)
        ≡ accept_answer user_id (stoll (codes (request.path_arg "id"))) w)
      × (answer (deny_handler (some user_id) request w)
          ≡ deny_answer user_id (stoll (codes (request.path_arg "id"))) w)
unfolding accept_handler deny_handler get_user_id path_id rethrow or_throw ◌>>=◌
decision_handlers-eq-answer user_id request w h =
    elim (Result-cases (stoll (codes (request.path_arg "id")))) [
      | inr (e, unreadable) ↦ rw unreadable (refl, refl)
      | inl (request_id, read) ↦ rw read (
        ap decided (accept-eq-rule user_id request_id w h)
            ∙ decided-accept _ (find request_id w.db.adopt_requests) w,
        ap decided (deny-eq-rule user_id request_id w h)
            ∙ decided-deny _ request_id (find request_id w.db.adopt_requests) w,
      )
    ]
