-- ===== src/Http/Adoption.antt =====
-- handlers/src: the handlers of adoption requests.
pub mod Statuses
use pawspective_backend.Base.{
  ℕ, ℤ, pos, String, Option, none, some, has_value, not, id_leb, if◌then◌else◌,
}
use pawspective_backend.HttpErrors.{
  ok_200, created_201, no_content_204, k_validation_error, k_missing_field, k_forbidden,
  k_animal_not_found, k_animal_not_available, k_adopt_request_already_exists,
}
use pawspective_backend.Errors.{
  Exception, adopt_request_not_found, forbidden, animal_not_found, animal_not_available,
  adopt_request_already_exists,
}
use pawspective_backend.Models.Dto.{AdoptRequestDto, ListDto}
use pawspective_backend.Exec.{Exec, pure, lift, throw_if, or_throw, rethrow, ◌>>=◌, ◌>>◌}
use pawspective_backend.Services.AdoptRequests
use pawspective_backend.Std.Chars.{codes}
use pawspective_backend.Std.Decimal.{stoll, stoi}
use pawspective_backend.Http.ErrorResponse.{client_error, forbidden_error, conflict, not_found}
use pawspective_backend.Http.Request.{
  HttpRequest, Reply, get_user_id, path_id, read_org_id, read_page,
}

-- The catch blocks of the accept and the deny handler.
abbrev pub decision_exceptions : Exception → Exception
decision_exceptions adopt_request_not_found = not_found k_forbidden
decision_exceptions forbidden = forbidden_error k_forbidden
decision_exceptions e = e

abbrev pub adopt_exceptions : Exception → Exception
adopt_exceptions animal_not_found = not_found k_animal_not_found
adopt_exceptions animal_not_available = conflict k_animal_not_available
adopt_exceptions adopt_request_already_exists = conflict k_adopt_request_already_exists
adopt_exceptions e = e

abbrev pub list_exceptions : Exception → Exception
list_exceptions forbidden = forbidden_error k_forbidden
list_exceptions e = e

-- AdoptRequestAcceptHandler
unfoldable pub accept_handler : Option ℤ → HttpRequest → Exec (Reply (Unit {0}))
unfolding rethrow
accept_handler context request = do
  user_id ← get_user_id context
  request_id ← path_id request (client_error k_validation_error)
  rethrow decision_exceptions (AdoptRequests.accept user_id request_id)
  pure (record { status = no_content_204; body = tt })

-- AdoptRequestDenyHandler
unfoldable pub deny_handler : Option ℤ → HttpRequest → Exec (Reply (Unit {0}))
unfolding rethrow
deny_handler context request = do
  user_id ← get_user_id context
  request_id ← path_id request (client_error k_validation_error)
  rethrow decision_exceptions (AdoptRequests.deny user_id request_id)
  pure (record { status = no_content_204; body = tt })

-- AnimalAdoptHandler
unfoldable pub adopt_handler : Option ℤ → HttpRequest → Exec (Reply AdoptRequestDto)
unfolding rethrow
adopt_handler context request = do
  user_id ← get_user_id context
  animal_id ← path_id request (client_error k_validation_error)
  result ← rethrow adopt_exceptions (AdoptRequests.create user_id animal_id)
  pure (record { status = created_201; body = result })

-- AdoptRequestsGetHandler
unfoldable pub list_handler : Option ℤ → HttpRequest → Exec (Reply (ListDto AdoptRequestDto))
unfolding get_user_id stoll stoi rethrow
list_handler context request = do
  org_id ← read_org_id request
  page ← read_page (client_error k_validation_error) (request.arg "page")
  user_id ← get_user_id context
  result ← rethrow list_exceptions (AdoptRequests.get_by_organization_id user_id org_id page)
  pure (record { status = ok_200; body = result })
