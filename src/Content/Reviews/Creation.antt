-- ===== src/Content/Reviews/Creation.antt =====
-- ReviewService::Create.
use pawspective_backend.Base.{
  suc, ℤ, pos, ◌≡◌, refl, true, ◌&&◌, ◌==◌, id_Eq, Option, none, some, [], ◌∷◌, ◌++◌, Bool-cases,
  Option-cases, inl, inr, if◌then◌else◌,
}
use pawspective_backend.Errors.{Result, ok, err, animal_not_found, review_already_exists}
use pawspective_backend.Models.Records.{Animal, Review}
use pawspective_backend.Models.Dto.{ReviewCreateDto, ReviewDto}
use pawspective_backend.Db.Table.{find, has, exists_row}
use pawspective_backend.Db.Tables.{
  Db, World, City-keyed, Breed-keyed, Organization-keyed, User-keyed, Animal-keyed,
}
use pawspective_backend.Db.Rows.{All-first_row}
use pawspective_backend.Db.Consistent.{IsConsistent}
use pawspective_backend.Exec.{◌>>=◌, throw_if, or_throw}
use pawspective_backend.Services.Reviews
use pawspective_backend.Adoption.Step.{find-has, has-find}

-- The review that is stored.
abbrev pub stored : ℤ → ReviewCreateDto → Db → Review
stored user_id dto db = record {
  id = pos db.next_review;
  animal_id = dto.animal_id;
  user_id = user_id;
  text = dto.text;
  created_at = db.now;
}

-- What the user gets, and the database afterwards.
abbrev pub review_outcome : ℤ → ReviewCreateDto → Option Animal → Db → Result ReviewDto × Db
review_outcome user_id dto none db = (err animal_not_found, db)
review_outcome user_id dto (some animal) db =
    if exists_row (λ (r : Review). r.user_id == user_id && r.animal_id == dto.animal_id) db.reviews
    then (err review_already_exists, db)
    else (
      ok (record {
        id = pos db.next_review;
        animal_id = dto.animal_id;
        animal_name = animal.name;
        text = dto.text;
        created_at = db.now;
        can_edit = true;
      }),
      record db {
        next_review = suc db.next_review;
        reviews = db.reviews ++ stored user_id dto db ∷ [];
      },
    )

create_found :
    (user_id : ℤ) (dto : ReviewCreateDto) (w : World) (animal : Animal)
    → IsConsistent w.db
    → has w.db.users user_id ≡ true
    → find dto.animal_id w.db.animals ≡ some animal
    → Reviews.create user_id dto w ≡ (
        let (result, db) = review_outcome user_id dto (find dto.animal_id w.db.animals) w.db in
        (result, record w { db = db }))
unfolding Reviews.create ◌>>=◌ throw_if or_throw
create_found user_id dto w animal h known found =
    let (breed, bred) = find-has w.db.breeds _ (All-first_row _ _ _ animal h.animal_breed found) in
    let (org, homed) =
      find-has w.db.organizations _ (All-first_row _ _ _ animal h.animal_organization found) in
    let (city, placed) =
      find-has w.db.cities _ (All-first_row _ _ _ org h.organization_city homed) in
    let there : has w.db.animals dto.animal_id ≡ true = has-find _ _ animal found in
    let test = λ (r : Review). r.user_id == user_id && r.animal_id == dto.animal_id in
    elim (Bool-cases (exists_row test w.db.reviews)) [
      | inl taken ↦ rw (found, bred, homed, placed, taken) refl
      | inr new ↦ rw (found, bred, homed, placed, new, new, there, known, found, bred) refl
    ]

-- With every foreign key met and for a known user, a review of an unknown animal and a second
-- review by the user of the same animal are refused, in this order, and nothing changes; in every
-- other case the review is stored under the next id and returned with the animal's name, and
-- nothing else changes.
pub create-eq-review_outcome :
    (user_id : ℤ) (dto : ReviewCreateDto) (w : World)
    → IsConsistent w.db
    → has w.db.users user_id ≡ true
    → Reviews.create user_id dto w ≡ (
        let (result, db) = review_outcome user_id dto (find dto.animal_id w.db.animals) w.db in
        (result, record w { db = db }))
unfolding Reviews.create ◌>>=◌ throw_if or_throw
create-eq-review_outcome user_id dto w h known =
    elim (Option-cases (find dto.animal_id w.db.animals)) [
      | inl missing ↦ rw missing refl
      | inr (animal, found) ↦ create_found user_id dto w animal h known found
    ]
