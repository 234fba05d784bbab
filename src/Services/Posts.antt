-- ===== src/Services/Posts.antt =====
-- post_service.cpp
use pawspective_backend.Base.{List, ℤ, pos, not, map}
use pawspective_backend.Errors.{forbidden, post_not_found}
use pawspective_backend.Models.Records.{Post}
use pawspective_backend.Models.Dto.{PostDto, PostCreateDto, PostUpdateDto, ListDto}
use pawspective_backend.Models.Convert.{post_from_create_dto, post_from_update_dto, post_to_dto}
use pawspective_backend.Exec.{Exec, pure, throw_if, or_throw, ◌>>=◌, ◌>>◌}
use pawspective_backend.Repositories.Posts
use pawspective_backend.Services.Catalogue.{
  page_size, list_dto, delete_files, delete_replaced, is_stranger,
}
use pawspective_backend.Services.Users.{get_organization_id}
use pawspective_backend.Services.Organizations

unfoldable pub create : ℤ → PostCreateDto → Exec PostDto
unfolding get_organization_id Organizations.get Posts.create
create user_id dto = do
  user_org_id ← get_organization_id user_id
  org_id ← or_throw user_org_id forbidden
  Organizations.get org_id
  post ← Posts.create (post_from_create_dto org_id dto)
  pure (post_to_dto post)

unfoldable pub get : ℤ → Exec PostDto
unfolding Posts.get_by_id
get id = do row ← Posts.get_by_id id; post ← or_throw row post_not_found; pure (post_to_dto post)

unfoldable pub get_by_organization_paginated :
    (List Post → List Post) → ℤ → ℤ → Exec (ListDto PostDto)
unfolding Organizations.get Posts.get_by_organization_id_paginated
get_by_organization_paginated arrange org_id page = do
  Organizations.get org_id
  (posts, total_count) ← Posts.get_by_organization_id_paginated arrange org_id page (pos page_size)
  pure (list_dto (map post_to_dto posts) page total_count)

unfoldable pub update : ℤ → ℤ → PostUpdateDto → Exec PostDto
unfolding Posts.get_by_id get_organization_id Posts.update
update user_id post_id dto = do
  row ← Posts.get_by_id post_id
  existing ← or_throw row post_not_found
  user_org_id ← get_organization_id user_id
  throw_if (is_stranger user_org_id existing.organization_id) forbidden
  updated ← Posts.update (post_from_update_dto post_id dto) dto.photos
  result ← or_throw updated post_not_found
  delete_replaced dto.photos existing.photos
  pure (post_to_dto result)

unfoldable pub delete : ℤ → ℤ → Exec (Unit {0})
unfolding Posts.get_by_id get_organization_id Posts.delete
delete user_id post_id = do
  row ← Posts.get_by_id post_id
  existing ← or_throw row post_not_found
  user_org_id ← get_organization_id user_id
  throw_if (is_stranger user_org_id existing.organization_id) forbidden
  deleted ← Posts.delete post_id
  throw_if (not deleted) post_not_found
  delete_files existing.photos
