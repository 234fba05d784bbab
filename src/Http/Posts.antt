-- ===== src/Http/Posts.antt =====
-- handlers/src: the handlers of posts.
use pawspective_backend.Base.{List, ℤ, String, Bool, Option}
use pawspective_backend.HttpErrors.{
  ok_200, created_201, no_content_204, k_forbidden, k_post_not_found, k_organization_not_found,
  k_validation_error,
}
use pawspective_backend.Errors.{Exception, forbidden, post_not_found, organization_not_found}
use pawspective_backend.Models.Records.{Post}
use pawspective_backend.Models.Dto.{PostDto, ListDto}
use pawspective_backend.Exec.{Exec, pure, rethrow, ◌>>=◌, ◌>>◌}
use pawspective_backend.Services.Posts
use pawspective_backend.Std.Decimal.{stoll, stoi}
use pawspective_backend.Tokens.Libraries.{Json}
use pawspective_backend.Http.ErrorResponse.{client_error, forbidden_error, not_found, body_errors}
use pawspective_backend.Http.Request.{
  HttpRequest, Reply, get_user_id, path_id, read_page, read_org_id,
}
use pawspective_backend.Http.Forms.{parse_post_create, parse_post_update}
use pawspective_backend.Http.Bodies.{checked_form, post_errors, post_update_errors}

abbrev pub creation_exceptions : Exception → Exception
creation_exceptions forbidden = forbidden_error k_forbidden
creation_exceptions e = body_errors e

abbrev pub change_exceptions : Exception → Exception
change_exceptions post_not_found = not_found k_post_not_found
change_exceptions forbidden = forbidden_error k_forbidden
change_exceptions e = body_errors e

abbrev pub delete_exceptions : Exception → Exception
delete_exceptions forbidden = forbidden_error k_forbidden
delete_exceptions post_not_found = not_found k_post_not_found
delete_exceptions e = e

abbrev pub list_exceptions : Exception → Exception
list_exceptions organization_not_found = not_found k_organization_not_found
list_exceptions e = e

module _ (json : Json) (is_photo : String → Bool) where
  -- PostCreateHandler
  unfoldable pub create_handler : Option ℤ → json.Value → Exec (Reply PostDto)
  unfolding rethrow
  create_handler context request_json = do
    user_id ← get_user_id context
    post_dto ← rethrow creation_exceptions (
        checked_form (post_errors is_photo) (parse_post_create json request_json)
          (Posts.create user_id))
    pure (record { status = created_201; body = post_dto })

  -- PostUpdateHandler
  unfoldable pub update_handler : Option ℤ → HttpRequest → json.Value → Exec (Reply PostDto)
  unfolding rethrow
  update_handler context request request_json = do
    user_id ← get_user_id context
    post_id ← path_id request (not_found k_post_not_found)
    post_dto ← rethrow change_exceptions (
        checked_form (post_update_errors is_photo) (parse_post_update json request_json)
          (Posts.update user_id post_id))
    pure (record { status = ok_200; body = post_dto })

-- PostDeleteHandler
unfoldable pub delete_handler : Option ℤ → HttpRequest → Exec (Reply (Unit {0}))
unfolding rethrow
delete_handler context request = do
  auth_user_id ← get_user_id context
  target_post_id ← path_id request (client_error k_post_not_found)
  rethrow delete_exceptions (Posts.delete auth_user_id target_post_id)
  pure (record { status = no_content_204; body = tt })

-- PostsGetHandler
unfoldable pub list_handler : (List Post → List Post) → HttpRequest → Exec (Reply (ListDto PostDto))
unfolding rethrow stoll stoi
list_handler arrange request = do
  org_id ← read_org_id request
  page ← read_page (client_error k_validation_error) (request.arg "page")
  result ← rethrow list_exceptions (Posts.get_by_organization_paginated arrange org_id page)
  pure (record { status = ok_200; body = result })
