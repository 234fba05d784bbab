-- ===== src/Services/Animals.antt =====
-- animal_service.cpp.
use pawspective_backend.Base.{
  ℤ, pos, String, Bool, false, not, ◌&&◌, Option, none, some, List, [], map, any, ◌==◌, id_Eq,
  has_value,
}
use pawspective_backend.Errors.{forbidden, animal_not_found, animal_not_available}
use pawspective_backend.Models.Records.{Animal}
use pawspective_backend.Models.Dto.{
  AnimalDto, AnimalRegisterDto, AnimalUpdateDto, AnimalFilterDto, BreedDto, ListDto,
}
use pawspective_backend.Models.Convert.{
  animal_from_register_dto, animal_from_update_dto, animal_to_dto, filters_from_dto,
}
use pawspective_backend.Models.FilterOptions.{filters_to_dto}
use pawspective_backend.Repositories.Search.Options.{get_available_filters}
use pawspective_backend.Exec.{Exec, pure, throw_if, or_throw, ◌>>=◌, ◌>>◌}
use pawspective_backend.Repositories.Animals
use pawspective_backend.Repositories.Animals.{is_available}
use pawspective_backend.Repositories.AdoptRequests
use pawspective_backend.Repositories.Search.Rows.{find_by_filters_paginated}
use pawspective_backend.Services.Catalogue.{
  get_breed, get_breeds, breed_at, page_size, list_dto, delete_files, delete_replaced, is_stranger,
}
use pawspective_backend.Services.Users.{get_organization_id}
use pawspective_backend.Services.Organizations.{get as get_organization}

-- `user_adopted_animal_ids.contains(animal.id)`
abbrev pub contains_id : List ℤ → ℤ → Bool
contains_id ids id = any (λ (i : ℤ). i == id) ids

unfoldable pub can_be_adopted : Animal → List ℤ → Bool
can_be_adopted animal user_adopted_animal_ids =
    is_available animal.status && not (contains_id user_adopted_animal_ids animal.id)

unfoldable pub create : ℤ → AnimalRegisterDto → Exec AnimalDto
unfolding get_organization_id get_breed Animals.create
create user_id dto = do
  user_org_id ← get_organization_id user_id
  throw_if (is_stranger user_org_id dto.organization_id) forbidden
  breed_dto ← get_breed dto.breed_id
  animal ← Animals.create (animal_from_register_dto dto)
  pure (animal_to_dto animal breed_dto (is_available animal.status))

unfoldable pub update : ℤ → ℤ → AnimalUpdateDto → Exec AnimalDto
unfolding Animals.get_by_id get_organization_id Animals.update get_breed
    AdoptRequests.get_animal_ids_by_user_id can_be_adopted
update user_id animal_id dto = do
  row ← Animals.get_by_id animal_id
  existing ← or_throw row animal_not_found
  user_org_id ← get_organization_id user_id
  throw_if (is_stranger user_org_id existing.organization_id) forbidden
  result ← Animals.update (animal_from_update_dto animal_id dto) dto.photos
  updated ← or_throw result animal_not_found
  delete_replaced dto.photos existing.photos
  breed_dto ← get_breed updated.breed_id
  user_adopted_animal_ids ← AdoptRequests.get_animal_ids_by_user_id user_id
  pure (animal_to_dto updated breed_dto (can_be_adopted updated user_adopted_animal_ids))

unfoldable pub adopt : ℤ → ℤ → Exec AnimalDto
unfolding Animals.get_by_id Animals.adopt get_breed AdoptRequests.get_animal_ids_by_user_id
    can_be_adopted
adopt user_id animal_id = do
  row ← Animals.get_by_id animal_id
  existing ← or_throw row animal_not_found
  throw_if (not (is_available existing.status)) animal_not_available
  result ← Animals.adopt animal_id user_id
  adopted ← or_throw result animal_not_found
  breed_dto ← get_breed adopted.breed_id
  user_adopted_animal_ids ← AdoptRequests.get_animal_ids_by_user_id user_id
  pure (animal_to_dto adopted breed_dto (can_be_adopted adopted user_adopted_animal_ids))

-- The ids of the animals that a given user has asked for; none where there is no user.
unfoldable pub adopted_ids : Option ℤ → Exec (List ℤ)
unfolding AdoptRequests.get_animal_ids_by_user_id
adopted_ids none = pure []
adopted_ids (some user_id) = AdoptRequests.get_animal_ids_by_user_id user_id

-- The items of a list of animals, with their breeds and what the user may adopt.
abbrev pub animal_items : List BreedDto → Bool → List ℤ → List Animal → List AnimalDto
animal_items breed_dtos has_user ids animals =
    map
      (λ (a : Animal).
        animal_to_dto a (breed_at breed_dtos a.breed_id) (has_user && can_be_adopted a ids))
      animals

unfoldable pub get_by_ids : List ℤ → Option ℤ → Exec (List AnimalDto)
unfolding Animals.get_by_ids get_breeds adopted_ids can_be_adopted
get_by_ids ids user_id = do
  animals ← Animals.get_by_ids ids
  breed_dtos ← get_breeds (map (λ (a : Animal). a.breed_id) animals)
  user_adopted_animal_ids ← adopted_ids user_id
  pure (animal_items breed_dtos (has_value user_id) user_adopted_animal_ids animals)

unfoldable pub get : ℤ → Option ℤ → Exec AnimalDto
unfolding Animals.get_by_id get_breed adopted_ids can_be_adopted
get id user_id = do
  row ← Animals.get_by_id id
  animal ← or_throw row animal_not_found
  breed_dto ← get_breed animal.breed_id
  user_adopted_animal_ids ← adopted_ids user_id
  pure (
      animal_to_dto animal breed_dto
        (has_value user_id && can_be_adopted animal user_adopted_animal_ids))

unfoldable pub get_by_organization_paginated : ℤ → ℤ → Option ℤ → Exec (ListDto AnimalDto)
unfolding get_organization Animals.get_by_organization_id_paginated get_breeds adopted_ids
    can_be_adopted
get_by_organization_paginated org_id page user_id = do
  get_organization org_id
  (animals, total_count) ← Animals.get_by_organization_id_paginated org_id page (pos page_size)
  breed_dtos ← get_breeds (map (λ (a : Animal). a.breed_id) animals)
  user_adopted_animal_ids ← adopted_ids user_id
  pure (
      list_dto (animal_items breed_dtos (has_value user_id) user_adopted_animal_ids animals) page
        total_count)

unfoldable pub get_filter_options : Exec AnimalFilterDto
unfolding get_available_filters filters_to_dto
get_filter_options = do filters ← get_available_filters; pure (filters_to_dto filters)

unfoldable pub find_by_filters : AnimalFilterDto → ℤ → Option ℤ → Exec (ListDto AnimalDto)
unfolding find_by_filters_paginated get_breeds adopted_ids can_be_adopted
find_by_filters filter_dto page user_id = do
  (animals, total_count) ←
      find_by_filters_paginated (filters_from_dto filter_dto) page (pos page_size)
  breed_dtos ← get_breeds (map (λ (a : Animal). a.breed_id) animals)
  user_adopted_animal_ids ← adopted_ids user_id
  pure (
      list_dto (animal_items breed_dtos (has_value user_id) user_adopted_animal_ids animals) page
        total_count)

unfoldable pub get_names : List ℤ → Exec (List (ℤ × String))
unfolding Animals.get_names_by_ids
get_names ids = Animals.get_names_by_ids ids

unfoldable pub get_adopted_animals_without_reviews_by_user_id : ℤ → Exec (List AnimalDto)
unfolding Animals.get_adopted_animals_without_reviews_by_user_id get_breeds
get_adopted_animals_without_reviews_by_user_id user_id = do
  animals ← Animals.get_adopted_animals_without_reviews_by_user_id user_id
  breed_dtos ← get_breeds (map (λ (a : Animal). a.breed_id) animals)
  pure (map (λ (a : Animal). animal_to_dto a (breed_at breed_dtos a.breed_id) false) animals)

unfoldable pub delete : ℤ → ℤ → Exec (Unit {0})
unfolding Animals.get_by_id get_organization_id Animals.delete
delete user_id animal_id = do
  row ← Animals.get_by_id animal_id
  existing ← or_throw row animal_not_found
  user_org_id ← get_organization_id user_id
  throw_if (is_stranger user_org_id existing.organization_id) forbidden
  deleted ← Animals.delete animal_id
  throw_if (not deleted) animal_not_found
  delete_files existing.photos
