-- ===== src/Services/Organizations.antt =====
-- organization_service.cpp
use pawspective_backend.Base.{
  ℤ, String, Bool, true, false, not, Option, none, some, map, ◌==◌, id_Eq, text_Eq,
}
use pawspective_backend.Errors.{forbidden, organization_not_found}
use pawspective_backend.Models.Records.{Organization}
use pawspective_backend.Models.Dto.{
  CityDto, OrganizationDto, OrganizationRegisterDto, OrganizationUpdateDto, ListDto,
}
use pawspective_backend.Models.Convert.{
  organization_from_register_dto, organization_from_update_dto, organization_to_dto,
}
use pawspective_backend.Exec.{Exec, pure, throw_if, or_throw, ◌>>=◌, ◌>>◌}
use pawspective_backend.Repositories.Organizations
use pawspective_backend.Services.Catalogue.{
  get_city, get_cities_in, city_at, page_size, list_dto, delete_file, is_stranger,
}
use pawspective_backend.Services.Users.{
  get_user_by_id, can_user_create_organization, link_organization,
}
use pawspective_backend.Base.{pos}

unfoldable pub register : ℤ → OrganizationRegisterDto → Exec OrganizationDto
unfolding can_user_create_organization get_city Organizations.create link_organization
register user_id dto = do
  allowed ← can_user_create_organization user_id
  throw_if (not allowed) forbidden
  city_dto ← get_city dto.city_id
  org ← Organizations.create (organization_from_register_dto dto)
  link_organization user_id org.id
  pure (organization_to_dto org city_dto)

unfoldable pub get : ℤ → Exec OrganizationDto
unfolding Organizations.get_by_id get_city
get id = do
  row ← Organizations.get_by_id id
  org ← or_throw row organization_not_found
  city_dto ← get_city org.city_id
  pure (organization_to_dto org city_dto)

unfoldable pub find_by_name_containing_paginated :
    (String → String → Bool) → String → ℤ → Exec (ListDto OrganizationDto)
unfolding Organizations.find_by_name_containing_paginated get_cities_in
find_by_name_containing_paginated name_matches name page = do
  (orgs, total_count) ←
      Organizations.find_by_name_containing_paginated name_matches name page (pos page_size)
  city_dtos ← get_cities_in (map (λ (o : Organization). o.city_id) orgs)
  pure (
      list_dto
        (map (λ (o : Organization). organization_to_dto o (city_at city_dtos o.city_id)) orgs) page
        total_count)

-- `if (dto.city_id.has_value()) validated_city = city_service_.Get(*dto.city_id);`
abbrev pub validate_city : Option ℤ → Exec (Option CityDto)
validate_city none = pure none
validate_city (some id) = do city ← get_city id; pure (some city)

abbrev pub city_or_get : Option CityDto → ℤ → Exec CityDto
city_or_get (some city) id = pure city
city_or_get none id = get_city id

-- The old avatar is deleted when both are there and differ.
abbrev pub delete_old_avatar : Option String → Option String → Exec (Unit {0})
delete_old_avatar (some new) (some old) = elim (new == old) [
  | true ↦ pure tt
  | false ↦ delete_file old
]
delete_old_avatar _ _ = pure tt

unfoldable pub update : ℤ → ℤ → OrganizationUpdateDto → Exec OrganizationDto
unfolding get_user_by_id Organizations.get_by_id get_city Organizations.update
update user_id org_id dto = do
  user ← get_user_by_id user_id
  throw_if (is_stranger user.organization_id org_id) forbidden
  row ← Organizations.get_by_id org_id
  existing ← or_throw row organization_not_found
  validated_city ← validate_city dto.city_id
  updated ← Organizations.update (organization_from_update_dto org_id dto)
  result ← or_throw updated organization_not_found
  delete_old_avatar dto.avatar_url existing.avatar_url
  city_dto ← city_or_get validated_city result.city_id
  pure (organization_to_dto result city_dto)

abbrev pub delete_avatar : Option String → Exec (Unit {0})
delete_avatar none = pure tt
delete_avatar (some url) = delete_file url

unfoldable pub delete : ℤ → ℤ → Exec (Unit {0})
unfolding get_user_by_id Organizations.get_by_id Organizations.delete
delete user_id org_id = do
  user ← get_user_by_id user_id
  throw_if (is_stranger user.organization_id org_id) forbidden
  row ← Organizations.get_by_id org_id
  org ← or_throw row organization_not_found
  deleted ← Organizations.delete org_id
  throw_if (not deleted) organization_not_found
  delete_avatar org.avatar_url
