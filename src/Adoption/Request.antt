-- ===== src/Adoption/Request.antt =====
-- AdoptRequestService::Create and AdoptRequestService::Deny.
use pawspective_backend.Base.{
  suc, pos, ℤ, ◌≡◌, refl, ◌++◌, ◌∷◌, [], true, false, not, id_Eq, Option, none, some, Bool-cases,
  Option-cases, inl, inr, if◌then◌else◌,
}
use pawspective_backend.Errors.{
  Result, ok, err, adopt_request_not_found, adopt_request_already_exists, animal_not_found,
  animal_not_available, forbidden, breed_not_found, user_not_found,
}
use pawspective_backend.Models.Records.{Animal, Breed, User, AdoptRequest}
use pawspective_backend.Models.Dto.{AdoptRequestDto}
use pawspective_backend.Db.Table.{find, reject, has_key, has, exists_row}
use pawspective_backend.Db.Tables.{
  Db, World, Breed-keyed, User-keyed, Animal-keyed, AdoptRequest-keyed,
}
use pawspective_backend.Db.Rows.{All-first_row}
use pawspective_backend.Db.Consistent.{IsConsistent}
use pawspective_backend.Exec.{◌>>=◌, throw_if, or_throw, rethrow}
use pawspective_backend.Repositories.Users.{organization_of}
use pawspective_backend.Repositories.AdoptRequests.{is_request_of}
use pawspective_backend.Repositories.Animals.{is_available}
use pawspective_backend.Services.Catalogue.{is_stranger}
use pawspective_backend.Services.AdoptRequests
use pawspective_backend.Adoption.Step.{step, find-has, has-find}

abbrev pub deny_animal : Option ℤ → ℤ → Option Animal → Db → Result Db
deny_animal org request_id none db = err animal_not_found
deny_animal org request_id (some animal) db =
    if is_stranger org animal.organization_id
    then err forbidden
    else ok (record db { adopt_requests = reject (has_key request_id) db.adopt_requests })

abbrev pub deny_request : Option ℤ → ℤ → Option AdoptRequest → Db → Result Db
deny_request org request_id none db = err adopt_request_not_found
deny_request org request_id (some request) db =
    deny_animal org request_id (find request.animal_id db.animals) db

-- What denying a request means.
abbrev pub deny_rule : ℤ → ℤ → Db → Result Db
deny_rule org_user_id request_id db =
    deny_request (organization_of (find org_user_id db.users)) request_id
      (find request_id db.adopt_requests) db

deny_found :
    (org_user_id request_id : ℤ) (w : World) (request : AdoptRequest)
    → IsConsistent w.db
    → find request_id w.db.adopt_requests ≡ some request
    → AdoptRequests.deny org_user_id request_id w ≡ step w (deny_rule org_user_id request_id w.db)
unfolding AdoptRequests.deny ◌>>=◌ throw_if or_throw
deny_found org_user_id request_id w request h found =
    let asked = All-first_row _ _ _ request h.request_animal found in
    let (animal, at_home) = find-has w.db.animals request.animal_id asked in
    let (breed, bred) =
      find-has w.db.breeds _ (All-first_row _ _ _ animal h.animal_breed at_home) in
    let org = organization_of (find org_user_id w.db.users) in
    elim (Bool-cases (is_stranger org animal.organization_id)) [
      | inl stranger ↦ rw (found, at_home, bred, stranger) refl
      | inr own ↦ rw (found, at_home, bred, own) refl
    ]

-- With every foreign key met, denying a request is one atomic step: an unknown request and a user
-- of another organization than the animal's are refused, in this order, with the state left as it
-- is; otherwise the call returns and exactly that request is deleted.
pub deny-eq-rule :
    (org_user_id request_id : ℤ) (w : World)
    → IsConsistent w.db
    → AdoptRequests.deny org_user_id request_id w ≡ step w (deny_rule org_user_id request_id w.db)
unfolding AdoptRequests.deny ◌>>=◌ throw_if or_throw
deny-eq-rule org_user_id request_id w h =
    elim (Option-cases (find request_id w.db.adopt_requests)) [
      | inl missing ↦ rw missing refl
      | inr (request, found) ↦ deny_found org_user_id request_id w request h found
    ]

-- What the user gets for a new request, for an animal with its breed and for the user.
abbrev request_dto : ℤ → Animal → Option Breed → Option User → Result AdoptRequestDto
request_dto id animal none user = err breed_not_found
request_dto id animal (some breed) none = err user_not_found
request_dto id animal (some breed) (some user) = ok (record {
  id = id;
  email = user.email;
  animal = record {
    id = animal.id;
    organization_id = animal.organization_id;
    name = animal.name;
    photos = animal.photos;
    breed = record { id = breed.id; animal_type = breed.animal_type; name = breed.name };
    size = animal.size;
    gender = animal.gender;
    care_level = animal.care_level;
    color = animal.color;
    good_with = animal.good_with;
    age = animal.age;
    description = animal.description;
    status = animal.status;
    can_be_adopted = false;
  };
})

-- The outcome of a new request with the database after it.
abbrev pub request_outcome : ℤ → ℤ → Option Animal → Db → Result AdoptRequestDto × Db
request_outcome user_id animal_id none db = (err animal_not_found, db)
request_outcome user_id animal_id (some animal) db =
    let id = pos db.next_adopt_request in
    let numbered : Db = record db { next_adopt_request = suc db.next_adopt_request } in
    let request : AdoptRequest = record { id = id; animal_id = animal_id; user_id = user_id } in
    if not (is_available animal.status)
    then (err animal_not_available, db)
    else if exists_row (is_request_of animal_id user_id) db.adopt_requests
    then (err adopt_request_already_exists, numbered)
    else (
      request_dto id animal (find animal.breed_id db.breeds) (find user_id db.users),
      record numbered { adopt_requests = db.adopt_requests ++ request ∷ [] },
    )

create_found :
    (user_id animal_id : ℤ) (w : World) (animal : Animal)
    → IsConsistent w.db
    → has w.db.users user_id ≡ true
    → find animal_id w.db.animals ≡ some animal
    → AdoptRequests.create user_id animal_id w ≡ (
        let (result, db) = request_outcome user_id animal_id (find animal_id w.db.animals) w.db in
        (result, record w { db = db }))
unfolding AdoptRequests.create ◌>>=◌ throw_if or_throw rethrow
create_found user_id animal_id w animal h known found =
    let (breed, bred) = find-has w.db.breeds _ (All-first_row _ _ _ animal h.animal_breed found) in
    let (user, here) = find-has w.db.users user_id known in
    let there : has w.db.animals animal_id ≡ true = has-find _ _ animal found in
    elim (Bool-cases (is_available animal.status)) [
      | inl free ↦
          elim (Bool-cases (exists_row (is_request_of animal_id user_id) w.db.adopt_requests)) [
            | inl taken ↦ rw (found, bred, free, taken) refl
            | inr new ↦ rw (found, bred, free, new, there, known, here) refl
          ]
      | inr gone ↦ rw (found, bred, gone) refl
    ]

-- With every foreign key met and for a known user, a request for an unknown animal, for one that
-- is not available and a second request of the user for the animal are refused, in this order,
-- with no request added; in every other case the request is added under the next id of the table,
-- and the call returns it with this id, the user's e-mail address and the animal.
pub create-eq-outcome :
    (user_id animal_id : ℤ) (w : World)
    → IsConsistent w.db
    → has w.db.users user_id ≡ true
    → AdoptRequests.create user_id animal_id w ≡ (
        let (result, db) = request_outcome user_id animal_id (find animal_id w.db.animals) w.db in
        (result, record w { db = db }))
unfolding AdoptRequests.create ◌>>=◌ throw_if or_throw rethrow
create-eq-outcome user_id animal_id w h known = elim (Option-cases (find animal_id w.db.animals)) [
  | inl missing ↦ rw missing refl
  | inr (animal, found) ↦ create_found user_id animal_id w animal h known found
]
