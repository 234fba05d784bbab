-- ===== src/Repositories/Animals.antt =====
-- animal_repository.cpp, over the table animals: organization_id REFERENCES organizations,
-- breed_id REFERENCES breeds, user_id REFERENCES users.
use pawspective_backend.Base.{
  ℕ, ℤ, pos, suc, String, Bool, true, false, not, ◌&&◌, ◌||◌, Option, none, some, List, [], ◌∷◌,
  ◌++◌, map, ◌==◌, id_Eq, is_empty, has_value, length, id_leb, if◌then◌else◌,
}
use pawspective_backend.Errors.{foreign_key_violation, sql_error}
use pawspective_backend.Models.Enums.{
  AnimalSize, AnimalGender, CareLevel, GoodWith, AnimalColor, AnimalStatus,
}
use pawspective_backend.Models.Records.{Animal, Review}
use pawspective_backend.Models.Convert.{unset}
use pawspective_backend.Db.Table.{find, where_rows, update_where, exists_row, has_key, has}
use pawspective_backend.Db.Tables.{Animal-keyed, Organization-keyed, Breed-keyed, User-keyed}
use pawspective_backend.Db.Cascade.{delete_animals, refers}
use pawspective_backend.Exec.{Exec, pure, reads, writes, lift, throw, throw_if, ◌>>=◌, ◌>>◌}
use pawspective_backend.Repositories.Patch.{given, Assignment, assign, text_given}
use pawspective_backend.Repositories.Paging.{page_window, page_rows, order_by}
use pawspective_backend.Repositories.Catalogue.{among}

unfoldable pub get_by_ids : List ℤ → Exec (List Animal)
get_by_ids ids =
    reads
      (λ db. if is_empty ids then [] else where_rows (λ (a : Animal). among ids a.id) db.animals)

unfoldable pub get_by_id : ℤ → Exec (Option Animal)
get_by_id id = reads (λ db. find id db.animals)

abbrev pub is_available : AnimalStatus → Bool
is_available AnimalStatus.available = true
is_available _ = false

-- CASE status WHEN 'available' THEN 1 ELSE 2 END ASC, id ASC
unfoldable pub shown_before : Animal → Animal → Bool
shown_before a b =
    if is_available a.status
    then not (is_available b.status) || id_leb a.id b.id
    else not (is_available b.status) && id_leb a.id b.id

unfoldable pub get_by_organization_id_paginated : ℤ → ℤ → ℤ → Exec (List Animal × ℕ)
unfolding page_window order_by shown_before
get_by_organization_id_paginated org_id page limit = do
  window ← lift (page_window page limit)
  rows ← reads (λ db. where_rows (λ (a : Animal). a.organization_id == org_id) db.animals)
  pure (page_rows window.0 window.1 (order_by shown_before rows), length rows)

-- The columns of the INSERT leave out user_id, which is NULL.
abbrev pub inserted : Animal → ℤ → Animal
inserted animal id = record animal { id = id; user_id = none }

unfoldable pub create : Animal → Exec Animal
create animal = do
  id ← reads (λ db. pos db.next_animal)
  writes (λ db. record db { next_animal = suc db.next_animal })
  known ← reads (λ db. has db.organizations animal.organization_id && has db.breeds animal.breed_id)
  throw_if (not known) foreign_key_violation
  writes (λ db. record db { animals = db.animals ++ inserted animal id ∷ [] })
  pure (inserted animal id)

-- value != T::kUnspecified
abbrev size_given : AnimalSize → Bool
size_given AnimalSize.unspecified = false
size_given _ = true

abbrev gender_given : AnimalGender → Bool
gender_given AnimalGender.unspecified = false
gender_given _ = true

abbrev care_level_given : CareLevel → Bool
care_level_given CareLevel.unspecified = false
care_level_given _ = true

abbrev status_given : AnimalStatus → Bool
status_given AnimalStatus.unspecified = false
status_given _ = true

abbrev good_with_given : GoodWith → Bool
good_with_given GoodWith.unspecified = false
good_with_given _ = true

abbrev color_given : AnimalColor → Bool
color_given AnimalColor.unspecified = false
color_given _ = true

abbrev pub set_photos : Option (List String) → List (Assignment Animal)
set_photos none = []
set_photos (some photos) = (λ (a : Animal). record a { photos = photos }) ∷ []

-- The SET list of `Update`. A status comes with `user_id = NULL`.
unfoldable pub animal_updates : Animal → Option (List String) → List (Assignment Animal)
animal_updates animal upd_photos =
    given (text_given animal.name) (λ (a : Animal). record a { name = animal.name })
    ++ (set_photos upd_photos
        ++ (given (not (animal.breed_id == unset))
              (λ (a : Animal). record a { breed_id = animal.breed_id })
            ++ (given (size_given animal.size) (λ (a : Animal). record a { size = animal.size })
                ++ (given (gender_given animal.gender)
                      (λ (a : Animal). record a { gender = animal.gender })
                    ++ (given (care_level_given animal.care_level)
                          (λ (a : Animal). record a { care_level = animal.care_level })
                        ++ (given (status_given animal.status)
                              (λ (a : Animal). record a { status = animal.status; user_id = none })
                            ++ (given (has_value animal.description)
                                  (λ (a : Animal). record a { description = animal.description })
                                ++ (given (good_with_given animal.good_with)
                                      (λ (a : Animal). record a { good_with = animal.good_with })
                                    ++ (given (not (animal.age == unset))
                                          (λ (a : Animal). record a { age = animal.age })
                                        ++ given (color_given animal.color) (λ (a : Animal).
                                          record a { color = animal.color }))))))))))

abbrev pub update_found : List (Assignment Animal) → Option Animal → Exec (Option Animal)
update_found fs none = pure none
update_found fs (some old) = do
  known ← reads (λ db. has db.breeds (assign fs old).breed_id)
  throw_if (not known) foreign_key_violation
  writes (λ db. record db { animals = update_where (has_key old.id) (assign fs) db.animals })
  pure (some (assign fs old))

-- With no assignment the statement reads `UPDATE animals SET  WHERE …`, a syntax error.
unfoldable pub update : Animal → Option (List String) → Exec (Option Animal)
unfolding animal_updates
update animal upd_photos =
    if is_empty (animal_updates animal upd_photos) then throw sql_error else (do
      row ← reads (λ db. find animal.id db.animals)
      update_found (animal_updates animal upd_photos) row)

unfoldable pub delete : ℤ → Exec Bool
unfolding delete_animals
delete id = do
  found ← reads (λ db. has db.animals id)
  writes (delete_animals (has_key id))
  pure found

abbrev pub adopted_by : ℤ → Animal → Animal
adopted_by user_id a = record a { user_id = some user_id; status = AnimalStatus.adopted }

abbrev pub adopt_found : ℤ → Option Animal → Exec (Option Animal)
adopt_found user_id none = pure none
adopt_found user_id (some old) = do
  known ← reads (λ db. has db.users user_id)
  throw_if (not known) foreign_key_violation
  writes
      (λ db. record db { animals = update_where (has_key old.id) (adopted_by user_id) db.animals })
  pure (some (adopted_by user_id old))

unfoldable pub adopt : ℤ → ℤ → Exec (Option Animal)
adopt animal_id user_id = do row ← reads (λ db. find animal_id db.animals); adopt_found user_id row

-- The map from ids to names, as the list of its entries.
unfoldable pub get_names_by_ids : List ℤ → Exec (List (ℤ × String))
get_names_by_ids ids = reads (λ db.
    if is_empty ids
    then []
    else map (λ (a : Animal). (a.id, a.name))
        (where_rows (λ (a : Animal). among ids a.id) db.animals))

abbrev pub by_id : Animal → Animal → Bool
by_id a b = id_leb a.id b.id

unfoldable pub get_adopted_animals_without_reviews_by_user_id : ℤ → Exec (List Animal)
unfolding order_by
get_adopted_animals_without_reviews_by_user_id user_id = reads (λ db. order_by by_id (
    where_rows
      (λ (a : Animal).
        refers a.user_id user_id
        && not
            (exists_row (λ (r : Review). r.user_id == user_id && r.animal_id == a.id) db.reviews))
      db.animals))
