-- ===== src/Http/Animals.antt =====
-- handlers/src: the handlers of animals, and breed_list_handler.cpp.
use pawspective_backend.Base.{ℤ, String, Bool, Option, List, value_or, is_empty}
use pawspective_backend.HttpErrors.{
  ok_200, created_201, no_content_204, k_forbidden, k_animal_not_found, k_breed_not_found,
  k_organization_not_found, k_validation_error, k_missing_field, k_invalid_json_format,
}
use pawspective_backend.Errors.{
  Exception, forbidden, animal_not_found, breed_not_found, organization_not_found, json_exception,
  parse_exception, member_missing, type_mismatch,
}
use pawspective_backend.Models.Enums.{animal_type}
use pawspective_backend.Models.EnumText.{parse}
use pawspective_backend.Models.Dto.{AnimalDto, AnimalFilterDto, BreedDto, ListDto}
use pawspective_backend.Exec.{Exec, pure, lift, throw_if, rethrow, ◌>>=◌, ◌>>◌}
use pawspective_backend.Services.Animals
use pawspective_backend.Services.Catalogue.{get_breeds_of_type}
use pawspective_backend.Std.Chars.{codes}
use pawspective_backend.Std.Decimal.{stoi}
use pawspective_backend.Tokens.Libraries.{Json}
use pawspective_backend.Http.ErrorResponse.{client_error, forbidden_error, not_found, body_errors}
use pawspective_backend.Http.Request.{HttpRequest, Reply, get_user_id, path_id, read_page}
use pawspective_backend.Http.Search.{parse_filters_from_request}
use pawspective_backend.Http.Forms.{parse_animal_register, parse_animal_update}
use pawspective_backend.Http.Bodies.{checked_form, animal_errors, animal_update_errors}

abbrev pub change_exceptions : Exception → Exception
change_exceptions animal_not_found = not_found k_animal_not_found
change_exceptions forbidden = forbidden_error k_forbidden
change_exceptions e = body_errors e

abbrev pub registration_exceptions : Exception → Exception
registration_exceptions forbidden = forbidden_error k_forbidden
registration_exceptions breed_not_found = not_found k_breed_not_found
registration_exceptions e = body_errors e

abbrev pub delete_exceptions : Exception → Exception
delete_exceptions forbidden = forbidden_error k_forbidden
delete_exceptions animal_not_found = not_found k_animal_not_found
delete_exceptions e = e

abbrev pub get_exceptions : Exception → Exception
get_exceptions animal_not_found = not_found k_animal_not_found
get_exceptions breed_not_found = not_found k_breed_not_found
get_exceptions e = e

abbrev pub list_exceptions : Exception → Exception
list_exceptions organization_not_found = not_found k_organization_not_found
list_exceptions e = e

module _ (json : Json) (is_photo : String → Bool) where
  -- AnimalRegistrationHandler
  unfoldable pub registration_handler : Option ℤ → json.Value → Exec (Reply AnimalDto)
  unfolding rethrow
  registration_handler context request_json = do
    user_id ← get_user_id context
    animal_dto ← rethrow registration_exceptions (
        checked_form (animal_errors is_photo) (parse_animal_register json request_json)
          (Animals.create user_id))
    pure (record { status = created_201; body = animal_dto })

  -- AnimalUpdateHandler
  unfoldable pub update_handler : Option ℤ → HttpRequest → json.Value → Exec (Reply AnimalDto)
  unfolding rethrow
  update_handler context request request_json = do
    user_id ← get_user_id context
    animal_id ← path_id request (not_found k_animal_not_found)
    animal_dto ← rethrow change_exceptions (
        checked_form (animal_update_errors is_photo) (parse_animal_update json request_json)
          (Animals.update user_id animal_id))
    pure (record { status = ok_200; body = animal_dto })

-- AnimalDeleteHandler
unfoldable pub delete_handler : Option ℤ → HttpRequest → Exec (Reply (Unit {0}))
unfolding rethrow
delete_handler context request = do
  auth_user_id ← get_user_id context
  target_animal_id ← path_id request (client_error k_animal_not_found)
  rethrow delete_exceptions (Animals.delete auth_user_id target_animal_id)
  pure (record { status = no_content_204; body = tt })

-- AnimalGetHandler
unfoldable pub get_handler : Option ℤ → HttpRequest → Exec (Reply AnimalDto)
unfolding rethrow
get_handler context request = do
  animal_id ← path_id request (not_found k_animal_not_found)
  animal_dto ← rethrow get_exceptions (Animals.get animal_id context)
  pure (record { status = ok_200; body = animal_dto })

-- OrganizationAnimalHandler
unfoldable pub organization_handler : Option ℤ → HttpRequest → Exec (Reply (ListDto AnimalDto))
unfolding rethrow stoi
organization_handler context request = do
  org_id ← path_id request (not_found k_organization_not_found)
  page ← read_page (client_error k_validation_error) (request.arg "page")
  result ← rethrow list_exceptions (Animals.get_by_organization_paginated org_id page context)
  pure (record { status = ok_200; body = result })

-- MeAdoptedAnimalsPendingReviewHandler
unfoldable pub pending_review_handler : Option ℤ → Exec (Reply (List AnimalDto))
pending_review_handler context = do
  user_id ← get_user_id context
  result ← Animals.get_adopted_animals_without_reviews_by_user_id user_id
  pure (record { status = ok_200; body = result })

-- catch (const userver::formats::json::Exception&)
abbrev pub type_exceptions : Exception → Exception
type_exceptions json_exception = client_error k_invalid_json_format
type_exceptions parse_exception = client_error k_invalid_json_format
type_exceptions member_missing = client_error k_invalid_json_format
type_exceptions type_mismatch = client_error k_invalid_json_format
type_exceptions e = e

-- BreedListHandler; GetArg gives the empty text where the argument is missing.
unfoldable pub breed_list_handler : HttpRequest → Exec (Reply (List BreedDto))
unfolding rethrow
breed_list_handler request = do
  let type_text = value_or (request.arg "type") ""
  throw_if (is_empty (codes type_text)) (client_error k_missing_field)
  type ← rethrow type_exceptions (lift (parse animal_type type_text))
  breeds ← get_breeds_of_type type
  pure (record { status = ok_200; body = breeds })

-- AnimalListHandler; `context` is what GetDataOptional finds.
unfoldable pub list_handler : Option ℤ → HttpRequest → Exec (Reply (ListDto AnimalDto))
unfolding parse_filters_from_request stoi rethrow
list_handler context request = do
  filters ← lift (parse_filters_from_request request)
  page ← read_page (client_error k_validation_error) (request.arg "page")
  result ← Animals.find_by_filters filters page context
  pure (record { status = ok_200; body = result })

-- AnimalFiltersHandler
unfoldable pub filters_handler : Exec (Reply AnimalFilterDto)
filters_handler = do
  filters ← Animals.get_filter_options
  pure (record { status = ok_200; body = filters })
