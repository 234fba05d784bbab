-- ===== src/Services/AdoptRequests.antt =====
-- adopt_request_service.cpp
use pawspective_backend.Base.{
  ℕ, ℤ, pos, not, Option, none, some, List, [], ◌∷◌, map, ◌==◌, id_Eq, is_empty, if◌then◌else◌,
}
use pawspective_backend.Errors.{
  Exception, unique_violation, forbidden, animal_not_available, adopt_request_not_found,
  adopt_request_already_exists, out_of_range,
}
use pawspective_backend.Models.Records.{AdoptRequest, User}
use pawspective_backend.Models.Dto.{AnimalDto, AdoptRequestDto, ListDto}
use pawspective_backend.Models.Convert.{adopt_request_to_dto}
use pawspective_backend.Db.Table.{find}
use pawspective_backend.Db.Tables.{User-keyed}
use pawspective_backend.Exec.{Exec, pure, throw_if, or_throw, rethrow, ◌>>=◌, ◌>>◌}
use pawspective_backend.Repositories.Animals.{is_available}
use pawspective_backend.Repositories.AdoptRequests
use pawspective_backend.Services.Catalogue.{page_size, list_dto, is_stranger}
use pawspective_backend.Services.Users.{get_user_by_id, get_users_by_ids, get_organization_id}
use pawspective_backend.Services.Animals

-- catch (const UniqueViolation&) { throw AdoptRequestAlreadyExistsException(); }
abbrev pub taken_request : Exception → Exception
taken_request unique_violation = adopt_request_already_exists
taken_request e = e

unfoldable pub create : ℤ → ℤ → Exec AdoptRequestDto
unfolding Animals.get AdoptRequests.create get_user_by_id
create user_id animal_id = do
  animal_dto ← Animals.get animal_id none
  throw_if (not (is_available animal_dto.status)) animal_not_available
  request ← rethrow taken_request (AdoptRequests.create animal_id user_id)
  user ← get_user_by_id user_id
  pure (adopt_request_to_dto request user.email animal_dto)

-- `animal_map.at(id)` over the map that `emplace` fills: the first entry of an id stays.
abbrev animal_at : List AnimalDto → ℤ → Option AnimalDto
animal_at [] id = none
animal_at (a ∷ animals) id = if a.id == id then some a else animal_at animals id

-- `users.at(id)`
abbrev user_at : List User → ℤ → Option User
user_at users id = find id users

-- One item of the list; `at` throws std::out_of_range.
abbrev request_item : List AnimalDto → List User → AdoptRequest → Exec AdoptRequestDto
request_item animals users req = do
  user ← or_throw (user_at users req.user_id) out_of_range
  animal ← or_throw (animal_at animals req.animal_id) out_of_range
  pure (adopt_request_to_dto req user.email animal)

abbrev request_items : List AnimalDto → List User → List AdoptRequest → Exec (List AdoptRequestDto)
request_items animals users [] = pure []
request_items animals users (req ∷ requests) = do
  item ← request_item animals users req
  items ← request_items animals users requests
  pure (item ∷ items)

abbrev empty_list : ℤ → ℕ → ListDto AdoptRequestDto
empty_list page total_count = record {
  items = [];
  page = page;
  limit = pos page_size;
  total_count = total_count;
  total_pages = 1;
}

unfoldable pub get_by_organization_id : ℤ → ℤ → ℤ → Exec (ListDto AdoptRequestDto)
unfolding get_organization_id AdoptRequests.get_by_organization_id_paginated Animals.get_by_ids
    get_users_by_ids
get_by_organization_id user_id org_id page = do
  user_org_id ← get_organization_id user_id
  throw_if (is_stranger user_org_id org_id) forbidden
  (requests, total_count) ←
      AdoptRequests.get_by_organization_id_paginated org_id page (pos page_size)
  if is_empty requests then pure (empty_list page total_count) else do
    animal_dtos ← Animals.get_by_ids (map (λ (r : AdoptRequest). r.animal_id) requests) none
    users ← get_users_by_ids (map (λ (r : AdoptRequest). r.user_id) requests)
    items ← request_items animal_dtos users requests
    pure (list_dto items page total_count)

unfoldable pub accept : ℤ → ℤ → Exec (Unit {0})
unfolding AdoptRequests.get_by_id Animals.get get_organization_id Animals.adopt
    AdoptRequests.delete_by_animal_id
accept org_user_id request_id = do
  row ← AdoptRequests.get_by_id request_id
  request ← or_throw row adopt_request_not_found
  animal_dto ← Animals.get request.animal_id none
  org_id_of_user ← get_organization_id org_user_id
  throw_if (is_stranger org_id_of_user animal_dto.organization_id) forbidden
  Animals.adopt request.user_id request.animal_id
  AdoptRequests.delete_by_animal_id request.animal_id
  pure tt

unfoldable pub deny : ℤ → ℤ → Exec (Unit {0})
unfolding AdoptRequests.get_by_id Animals.get get_organization_id AdoptRequests.delete_by_id
deny org_user_id request_id = do
  row ← AdoptRequests.get_by_id request_id
  request ← or_throw row adopt_request_not_found
  animal_dto ← Animals.get request.animal_id none
  org_id_of_user ← get_organization_id org_user_id
  throw_if (is_stranger org_id_of_user animal_dto.organization_id) forbidden
  AdoptRequests.delete_by_id request_id
  pure tt
