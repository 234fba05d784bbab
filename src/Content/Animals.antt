-- ===== src/Content/Animals.antt =====
-- AnimalService::Update and AnimalService::Delete.
use pawspective_backend.Base.{
  ℤ, ◌≡◌, refl, ◌∙◌, arith, String, Bool, true, false, ◌&&◌, ◌||◌, ◌==◌, id_Eq, id_eq_iff, Option,
  none, some, List, [], ◌∷◌, ◌++◌, Bool-cases, Option-cases, inl, inr, if◌then◌else◌,
}
use pawspective_backend.Errors.{Result, ok, err, animal_not_found, forbidden, sql_error}
use pawspective_backend.Models.Records.{Animal, Review, AdoptRequest}
use pawspective_backend.Models.Dto.{AnimalUpdateDto}
use pawspective_backend.Db.Table.{find, has, has_key, exists_row, where_rows, reject}
use pawspective_backend.Db.Tables.{Db, World, User-keyed, Animal-keyed}
use pawspective_backend.Exec.{◌>>=◌, throw_if, or_throw}
use pawspective_backend.Repositories.Patch.{given}
use pawspective_backend.Repositories.Users.{organization_of}
use pawspective_backend.Services.Catalogue.{is_stranger, delete_files}
use pawspective_backend.Adoption.Step.{has-find}
use pawspective_backend.Db.Cascade.{delete_animals}
use mathlib.Core.Path.{ap, fun_ext}
use mathlib.Core.List.{append-nil, append_assoc}
use pawspective_backend.Services.Animals

-- An update that gives no field.
abbrev pub nothing : AnimalUpdateDto
nothing = record {
  name = none;
  breed_id = none;
  photos = none;
  size = none;
  gender = none;
  care_level = none;
  color = none;
  good_with = none;
  age = none;
  description = none;
  status = none;
}

-- An update of an existing animal that gives no field never returns the animal: a user of the
-- animal's organization gets an SQL error, every other user is refused, and the state stays.
pub update-nothing :
    (user_id animal_id : ℤ) (w : World) (animal : Animal)
    → find animal_id w.db.animals ≡ some animal
    → Animals.update user_id animal_id nothing w ≡ (
        if is_stranger (organization_of (find user_id w.db.users)) animal.organization_id
        then (err forbidden, w)
        else (err sql_error, w))
unfolding Animals.update ◌>>=◌ throw_if or_throw given
update-nothing user_id animal_id w animal found =
    let org = organization_of (find user_id w.db.users) in
    elim (Bool-cases (is_stranger org animal.organization_id)) [
      | inl stranger ↦ rw (found, stranger) refl
      | inr own ↦ rw (found, own) refl
    ]

delete_files_lem :
    (urls : List String) (w : World)
    → delete_files urls w ≡ (ok tt, record w { deleted_files = w.deleted_files ++ urls })
unfolding ◌>>=◌
delete_files_lem [] w = rw (append-nil w.deleted_files) refl
delete_files_lem (url ∷ urls) w =
    delete_files_lem urls _
    ∙ ap (λ (files : List String). (ok tt, record w { deleted_files = files }))
        (append_assoc w.deleted_files (url ∷ []) urls)

-- The rows of one id hold this id and no other.
has-where_rows :
    (i j : ℤ) (animals : List Animal)
    → has (where_rows (has_key i) animals) j ≡ (has animals i && (j == i))
unfolding exists_row where_rows
has-where_rows i j [] = refl
has-where_rows i j (a ∷ animals) = elim (Bool-cases (has_key i a)) [
  | inl hit ↦
      let e : a.id ≡ i = (id_eq_iff a.id i).0 hit in
      rw (hit, has-where_rows i j animals)
        (go (has_key j a) (has animals i) (j == i)
          (ground (arith, e, id_eq_iff a.id j, id_eq_iff j i)))
  | inr miss ↦ rw miss (has-where_rows i j animals)
]
  where
    go : (b c d : Bool) → b ≡ d → (b || (c && d)) ≡ d
    go true c d e = e
    go false true d e = refl
    go false false d e = e

-- The database without an animal, its reviews and the requests for it.
abbrev without_animal : ℤ → Db → Db
without_animal id db = record db {
  animals = reject (has_key id) db.animals;
  reviews = reject (λ (r : Review). r.animal_id == id) db.reviews;
  adopt_requests = reject (λ (r : AdoptRequest). r.animal_id == id) db.adopt_requests;
}

abbrev pub delete_outcome : Option ℤ → ℤ → Option Animal → World → Result (Unit {0}) × World
delete_outcome org id none w = (err animal_not_found, w)
delete_outcome org id (some animal) w =
    if is_stranger org animal.organization_id then (err forbidden, w) else (
      ok tt,
      record w { db = without_animal id w.db; deleted_files = w.deleted_files ++ animal.photos },
    )

delete_animals-without_animal :
    (id : ℤ) (db : Db)
    → has db.animals id ≡ true
    → delete_animals (has_key id) db ≡ without_animal id db
unfolding delete_animals
delete_animals-without_animal id db there =
    let same : (j : ℤ) → has (where_rows (has_key id) db.animals) j ≡ (j == id) =
      λ j. has-where_rows id j db.animals ∙ rw there refl in
    let names : (λ j. has (where_rows (has_key id) db.animals) j) ≡ (λ j. j == id) = fun_ext same in
    ap
      (λ (gone : ℤ → Bool). record db {
        animals = reject (has_key id) db.animals;
        reviews = reject (λ (r : Review). gone r.animal_id) db.reviews;
        adopt_requests = reject (λ (r : AdoptRequest). gone r.animal_id) db.adopt_requests;
      })
      names

-- Deleting an animal on every branch: an unknown animal and a user of another organization are
-- refused, in this order, and the state stays; otherwise the call returns, exactly this animal goes
-- with its reviews and the requests for it, and the files of its photos are deleted.
pub delete-eq-delete_outcome :
    (user_id animal_id : ℤ) (w : World)
    → Animals.delete user_id animal_id w
      ≡ delete_outcome
          (organization_of (find user_id w.db.users))
          animal_id
          (find animal_id w.db.animals)
          w
unfolding Animals.delete ◌>>=◌ throw_if or_throw
delete-eq-delete_outcome user_id animal_id w = elim (Option-cases (find animal_id w.db.animals)) [
  | inl missing ↦ rw missing refl
  | inr (animal, found) ↦
      let there = has-find _ w.db.animals animal found in
      let org = organization_of (find user_id w.db.users) in
      elim (Bool-cases (is_stranger org animal.organization_id)) [
        | inl stranger ↦ rw (found, stranger) refl
        | inr own ↦
            rw
              (
                found,
                own,
                there,
                delete_animals-without_animal animal_id w.db there,
                delete_files_lem,
              )
              refl
      ]
]
