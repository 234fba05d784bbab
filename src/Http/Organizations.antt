-- ===== src/Http/Organizations.antt =====
-- handlers/src: the handlers of organizations, and city_list_handler.cpp.
use pawspective_backend.Base.{ℤ, String, Bool, Option, List, value_or}
use pawspective_backend.HttpErrors.{
  ok_200, created_201, no_content_204, k_forbidden, k_city_not_found, k_organization_not_found,
  k_validation_error,
}
use pawspective_backend.Errors.{Exception, forbidden, city_not_found, organization_not_found}
use pawspective_backend.Models.Dto.{CityDto, OrganizationDto, ListDto}
use pawspective_backend.Exec.{Exec, pure, rethrow, ◌>>=◌, ◌>>◌}
use pawspective_backend.Services.Catalogue.{get_cities}
use pawspective_backend.Services.Organizations
use pawspective_backend.Std.Decimal.{stoi}
use pawspective_backend.Tokens.Libraries.{Json}
use pawspective_backend.Http.ErrorResponse.{client_error, forbidden_error, not_found, body_errors}
use pawspective_backend.Http.Request.{HttpRequest, Reply, get_user_id, path_id, read_page}
use pawspective_backend.Http.Forms.{parse_organization_register, parse_organization_update}
use pawspective_backend.Http.Bodies.{checked_form, organization_errors, organization_update_errors}

abbrev pub registration_exceptions : Exception → Exception
registration_exceptions forbidden = forbidden_error k_forbidden
registration_exceptions city_not_found = not_found k_city_not_found
registration_exceptions e = body_errors e

abbrev pub change_exceptions : Exception → Exception
change_exceptions organization_not_found = not_found k_validation_error
change_exceptions city_not_found = not_found k_city_not_found
change_exceptions forbidden = forbidden_error k_forbidden
change_exceptions e = body_errors e

abbrev pub delete_exceptions : Exception → Exception
delete_exceptions forbidden = forbidden_error k_forbidden
delete_exceptions organization_not_found = not_found k_organization_not_found
delete_exceptions e = e

abbrev pub get_exceptions : Exception → Exception
get_exceptions organization_not_found = not_found k_organization_not_found
get_exceptions city_not_found = not_found k_city_not_found
get_exceptions e = e

module _ (json : Json) (is_photo : String → Bool) where
  -- OrgRegistrationHandler
  unfoldable pub registration_handler : Option ℤ → json.Value → Exec (Reply OrganizationDto)
  unfolding rethrow
  registration_handler context request_json = do
    user_id ← get_user_id context
    org_dto ← rethrow registration_exceptions (
        checked_form (organization_errors is_photo) (parse_organization_register json request_json)
          (Organizations.register user_id))
    pure (record { status = created_201; body = org_dto })

  -- OrgUpdateHandler
  unfoldable pub update_handler : Option ℤ → HttpRequest → json.Value → Exec (Reply OrganizationDto)
  unfolding rethrow
  update_handler context request request_body = do
    user_id ← get_user_id context
    org_id ← path_id request (client_error k_organization_not_found)
    updated_org ← rethrow change_exceptions (
        checked_form (organization_update_errors is_photo)
          (parse_organization_update json request_body) (Organizations.update user_id org_id))
    pure (record { status = ok_200; body = updated_org })

-- OrganizationDeleteHandler
unfoldable pub delete_handler : Option ℤ → HttpRequest → Exec (Reply (Unit {0}))
unfolding rethrow
delete_handler context request = do
  auth_user_id ← get_user_id context
  target_org_id ← path_id request (client_error k_organization_not_found)
  rethrow delete_exceptions (Organizations.delete auth_user_id target_org_id)
  pure (record { status = no_content_204; body = tt })

-- OrganizationGetHandler
unfoldable pub get_handler : HttpRequest → Exec (Reply OrganizationDto)
unfolding rethrow
get_handler request = do
  org_id ← path_id request (not_found k_organization_not_found)
  org_dto ← rethrow get_exceptions (Organizations.get org_id)
  pure (record { status = ok_200; body = org_dto })

-- OrgSearchHandler; GetArg gives the empty text where the argument is missing.
unfoldable pub search_handler :
    (String → String → Bool) → HttpRequest → Exec (Reply (ListDto OrganizationDto))
unfolding rethrow stoi
search_handler name_matches request = do
  let name = value_or (request.arg "name") ""
  page ← read_page (client_error k_validation_error) (request.arg "page")
  result ← Organizations.find_by_name_containing_paginated name_matches name page
  pure (record { status = ok_200; body = result })

-- CityListHandler
unfoldable pub city_list_handler : Exec (Reply (List CityDto))
city_list_handler = do cities ← get_cities; pure (record { status = ok_200; body = cities })
