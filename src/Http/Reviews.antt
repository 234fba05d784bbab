-- ===== src/Http/Reviews.antt =====
-- handlers/src: the handlers of reviews.
use pawspective_backend.Base.{List, ℤ, Option}
use pawspective_backend.HttpErrors.{
  ok_200, created_201, no_content_204, k_forbidden, k_animal_not_found, k_organization_not_found,
  k_city_not_found, k_breed_not_found, k_review_already_exists, k_review_not_found,
  k_validation_error,
}
use pawspective_backend.Errors.{
  Exception, forbidden, animal_not_found, organization_not_found, city_not_found, breed_not_found,
  review_already_exists, review_not_found,
}
use pawspective_backend.Models.Records.{Review}
use pawspective_backend.Models.Dto.{ReviewDto, ListDto}
use pawspective_backend.Exec.{Exec, pure, rethrow, ◌>>=◌, ◌>>◌}
use pawspective_backend.Services.Reviews
use pawspective_backend.Std.Decimal.{stoll, stoi}
use pawspective_backend.Tokens.Libraries.{Json}
use pawspective_backend.Http.ErrorResponse.{
  client_error, forbidden_error, conflict, not_found, body_errors,
}
use pawspective_backend.Http.Request.{
  HttpRequest, Reply, get_user_id, path_id, read_page, read_org_id,
}
use pawspective_backend.Http.Forms.{parse_review_create, parse_review_update}
use pawspective_backend.Http.Bodies.{checked_form, review_errors, review_update_errors}

abbrev pub creation_exceptions : Exception → Exception
creation_exceptions forbidden = forbidden_error k_forbidden
creation_exceptions animal_not_found = client_error k_animal_not_found
creation_exceptions organization_not_found = client_error k_organization_not_found
creation_exceptions city_not_found = client_error k_city_not_found
creation_exceptions breed_not_found = client_error k_breed_not_found
creation_exceptions review_already_exists = conflict k_review_already_exists
creation_exceptions e = body_errors e

abbrev pub change_exceptions : Exception → Exception
change_exceptions review_not_found = not_found k_review_not_found
change_exceptions forbidden = forbidden_error k_forbidden
change_exceptions e = body_errors e

abbrev pub delete_exceptions : Exception → Exception
delete_exceptions forbidden = forbidden_error k_forbidden
delete_exceptions review_not_found = not_found k_review_not_found
delete_exceptions e = e

abbrev pub list_exceptions : Exception → Exception
list_exceptions organization_not_found = not_found k_organization_not_found
list_exceptions e = e

module _ (json : Json) where
  -- ReviewCreateHandler
  unfoldable pub create_handler : Option ℤ → json.Value → Exec (Reply ReviewDto)
  unfolding rethrow
  create_handler context request_json = do
    user_id ← get_user_id context
    dto ← rethrow creation_exceptions (
        checked_form review_errors (parse_review_create json request_json) (Reviews.create user_id))
    pure (record { status = created_201; body = dto })

  -- ReviewUpdateHandler
  unfoldable pub update_handler : Option ℤ → HttpRequest → json.Value → Exec (Reply ReviewDto)
  unfolding rethrow
  update_handler context request request_json = do
    user_id ← get_user_id context
    review_id ← path_id request (not_found k_review_not_found)
    review_dto ← rethrow change_exceptions (
        checked_form review_update_errors (parse_review_update json request_json)
          (Reviews.update_text user_id review_id))
    pure (record { status = ok_200; body = review_dto })

-- ReviewDeleteHandler
unfoldable pub delete_handler : Option ℤ → HttpRequest → Exec (Reply (Unit {0}))
unfolding rethrow
delete_handler context request = do
  auth_user_id ← get_user_id context
  target_review_id ← path_id request (client_error k_review_not_found)
  rethrow delete_exceptions (Reviews.delete auth_user_id target_review_id)
  pure (record { status = no_content_204; body = tt })

-- ReviewGetHandler
unfoldable pub list_handler :
    (List Review → List Review) → Option ℤ → HttpRequest → Exec (Reply (ListDto ReviewDto))
unfolding rethrow stoll stoi
list_handler arrange context request = do
  org_id ← read_org_id request
  page ← read_page (client_error k_validation_error) (request.arg "page")
  result ←
      rethrow list_exceptions (Reviews.get_by_organization_id_paginated arrange org_id page context)
  pure (record { status = ok_200; body = result })
