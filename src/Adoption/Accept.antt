-- ===== src/Adoption/Accept.antt =====
-- AdoptRequestService::Accept with AnimalService::Adopt.
use pawspective_backend.Base.{
  ℤ, ◌≡◌, refl, id_Eq, Option, none, some, Bool-cases, Option-cases, inl, inr, if◌then◌else◌,
}
use pawspective_backend.Errors.{
  Result, ok, err, adopt_request_not_found, animal_not_found, animal_not_available, forbidden,
}
use pawspective_backend.Models.Records.{Animal, AdoptRequest}
use pawspective_backend.Db.Table.{find, reject, update_where, has_key}
use pawspective_backend.Db.Tables.{
  Db, World, Breed-keyed, User-keyed, Animal-keyed, AdoptRequest-keyed,
}
use pawspective_backend.Db.Rows.{All-first_row}
use pawspective_backend.Db.Consistent.{IsConsistent}
use pawspective_backend.Exec.{◌>>=◌, throw_if, or_throw}
use pawspective_backend.Repositories.Users.{organization_of}
use pawspective_backend.Repositories.AdoptRequests.{is_for_animal}
use pawspective_backend.Repositories.Animals.{is_available, adopted_by}
use pawspective_backend.Services.Catalogue.{is_stranger}
use pawspective_backend.Services.AdoptRequests
use pawspective_backend.Adoption.Step.{step, find-has}

-- The database after an accepted request: the animal has the user and the status `adopted`, and
-- no request for it is left.
abbrev pub accepted : AdoptRequest → Animal → Db → Db
accepted request animal db = record db {
  animals = update_where (has_key animal.id) (adopted_by request.user_id) db.animals;
  adopt_requests = reject (is_for_animal request.animal_id) db.adopt_requests;
}

abbrev pub accept_animal : Option ℤ → AdoptRequest → Option Animal → Db → Result Db
accept_animal org request none db = err animal_not_found
accept_animal org request (some animal) db =
    if is_stranger org animal.organization_id
    then err forbidden
    else if is_available animal.status
    then ok (accepted request animal db)
    else err animal_not_available

abbrev pub accept_request : Option ℤ → Option AdoptRequest → Db → Result Db
accept_request org none db = err adopt_request_not_found
accept_request org (some request) db =
    accept_animal org request (find request.animal_id db.animals) db

-- What accepting a request means.
abbrev pub accept_rule : ℤ → ℤ → Db → Result Db
accept_rule org_user_id request_id db =
    accept_request (organization_of (find org_user_id db.users)) (find request_id db.adopt_requests)
      db

accept_found :
    (org_user_id request_id : ℤ) (w : World) (request : AdoptRequest)
    → IsConsistent w.db
    → find request_id w.db.adopt_requests ≡ some request
    → AdoptRequests.accept org_user_id request_id w
      ≡ step w (accept_rule org_user_id request_id w.db)
unfolding AdoptRequests.accept ◌>>=◌ throw_if or_throw
accept_found org_user_id request_id w request h found =
    let asked = All-first_row _ _ _ request h.request_animal found in
    let known = All-first_row _ _ _ request h.request_user found in
    let (animal, at_home) = find-has w.db.animals request.animal_id asked in
    let (breed, bred) =
      find-has w.db.breeds _ (All-first_row _ _ _ animal h.animal_breed at_home) in
    let org = organization_of (find org_user_id w.db.users) in
    elim (Bool-cases (is_stranger org animal.organization_id)) [
      | inl stranger ↦ rw (found, at_home, bred, stranger) refl
      | inr own ↦ elim (Bool-cases (is_available animal.status)) [
        | inl free ↦ rw (found, at_home, bred, own, at_home, free, at_home, known, bred) refl
        | inr gone ↦ rw (found, at_home, bred, own, at_home, gone) refl
      ]
    ]

-- With every foreign key met, accepting a request is one atomic step. An unknown request, a user
-- of another organization than the animal's and an animal that is not available are refused, in
-- this order, with the state left as it is. In every other case the call returns, the animal gets
-- the asking user and the status `adopted`, and all requests for it go.
pub accept-eq-rule :
    (org_user_id request_id : ℤ) (w : World)
    → IsConsistent w.db
    → AdoptRequests.accept org_user_id request_id w
      ≡ step w (accept_rule org_user_id request_id w.db)
unfolding AdoptRequests.accept ◌>>=◌ throw_if or_throw
accept-eq-rule org_user_id request_id w h =
    elim (Option-cases (find request_id w.db.adopt_requests)) [
      | inl missing ↦ rw missing refl
      | inr (request, found) ↦ accept_found org_user_id request_id w request h found
    ]
