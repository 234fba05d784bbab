-- ===== src/Adoption/Offer.antt =====
-- AnimalService::Get for a user who has asked for the animal.
use pawspective_backend.Base.{
  ℤ, ◌≡◌, refl, Bool, true, false, ◌&&◌, ◌||◌, ◌==◌, id_Eq, some, List, [], ◌∷◌, map, Bool-cases,
  inl, inr, id_eq_iff,
}
use pawspective_backend.Errors.{ok}
use pawspective_backend.Models.Records.{Animal, AdoptRequest}
use pawspective_backend.Models.Dto.{AnimalDto}
use pawspective_backend.Models.Convert.{animal_to_dto, breed_to_dto}
use pawspective_backend.Db.Table.{find, has_key, exists_row, where_rows}
use pawspective_backend.Db.Tables.{World, Breed-keyed, Animal-keyed}
use pawspective_backend.Db.Rows.{All-first_row, first_row_sound}
use pawspective_backend.Db.Consistent.{IsConsistent}
use pawspective_backend.Exec.{◌>>=◌, or_throw}
use pawspective_backend.Repositories.Animals.{is_available}
use pawspective_backend.Repositories.AdoptRequests.{is_request_of}
use pawspective_backend.Services.Animals
use pawspective_backend.Services.Animals.{contains_id}
use pawspective_backend.Adoption.Step.{find-has}

requested-contains_id :
    (animal_id user_id : ℤ) (requests : List AdoptRequest)
    → exists_row (is_request_of animal_id user_id) requests ≡ true
    → contains_id
        (map
          (λ (r : AdoptRequest). r.animal_id)
          (where_rows (λ (r : AdoptRequest). r.user_id == user_id) requests))
        animal_id
      ≡ true
unfolding exists_row where_rows
requested-contains_id animal_id user_id [] h = h
requested-contains_id animal_id user_id (r ∷ requests) h =
    elim (Bool-cases (r.user_id == user_id)) [
      | inl own ↦ elim (Bool-cases (r.animal_id == animal_id)) [
        | inl same ↦ rw (own, same) refl
        | inr other ↦
            rw (own, other)
              (requested-contains_id animal_id user_id requests (rw (own, other) at h))
      ]
      | inr foreign ↦
          rw foreign
            (requested-contains_id animal_id user_id requests (drop_head _ _ (rw foreign at h)))
    ]
  where
    drop_head : (a b : Bool) → ((a && false) || b) ≡ true → b ≡ true
    drop_head true b e = e
    drop_head false b e = e

-- With every foreign key met, an animal that a user has asked for is shown to this user as one
-- that the user cannot adopt, whatever its status, and the state stays as it is.
pub get-requested :
    (animal_id user_id : ℤ) (w : World) (animal : Animal)
    → IsConsistent w.db
    → find animal_id w.db.animals ≡ some animal
    → exists_row (is_request_of animal_id user_id) w.db.adopt_requests ≡ true
    → (dto : AnimalDto) × (Animals.get animal_id (some user_id) w ≡ (ok dto, w))
      × (dto.id ≡ animal_id)
      × (dto.can_be_adopted ≡ false)
unfolding Animals.get ◌>>=◌ or_throw
get-requested animal_id user_id w animal h found asked =
    let (breed, bred) = find-has w.db.breeds _ (All-first_row _ _ _ animal h.animal_breed found) in
    let e : animal.id ≡ animal_id =
      (id_eq_iff _ _).0 (first_row_sound (has_key animal_id) w.db.animals animal found) in
    let listed = requested-contains_id animal_id user_id w.db.adopt_requests asked in
    (
      animal_to_dto animal (breed_to_dto breed) false,
      elim (Bool-cases (is_available animal.status)) [
        | inl free ↦ rw (found, bred, free, e, listed) refl
        | inr taken ↦ rw (found, bred, taken) refl
      ],
      e,
      refl,
    )
