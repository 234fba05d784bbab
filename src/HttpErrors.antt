-- ===== src/HttpErrors.antt =====
-- utils/error_response.hpp and utils/exception.hpp: the codes of error responses and the errors of
-- a validation. The texts of messages are left out; what a message says of a rule is kept.
use pawspective_backend.Base.{ℕ, String, List}

pub data HttpStatus : Type 0 where
  ok_200 created_201 no_content_204 bad_request_400 unauthorized_401 forbidden_403 : HttpStatus
  not_found_404 conflict_409 internal_server_error_500 : HttpStatus

pub data ErrorCode : Type 0 where
  k_forbidden k_invalid_json_format k_missing_field k_validation_error : ErrorCode
  k_invalid_credentials k_user_not_found k_user_already_exists k_access_token_missing : ErrorCode
  k_access_token_invalid k_access_token_expired k_refresh_token_invalid : ErrorCode
  k_organization_not_found k_city_not_found k_breed_not_found k_animal_not_found : ErrorCode
  k_post_not_found k_review_already_exists k_review_not_found : ErrorCode
  k_adopt_request_already_exists k_animal_not_available k_invalid_content_type : ErrorCode
  k_upload_failed k_delete_failed : ErrorCode

unfoldable pub code_text : ErrorCode → String
code_text k_forbidden = "FORBIDDEN"
code_text k_invalid_json_format = "INVALID_JSON_FORMAT"
code_text k_missing_field = "MISSING_FIELD"
code_text k_validation_error = "VALIDATION_ERROR"
code_text k_invalid_credentials = "INVALID_CREDENTIALS"
code_text k_user_not_found = "USER_NOT_FOUND"
code_text k_user_already_exists = "USER_ALREADY_EXISTS"
code_text k_access_token_missing = "ACCESS_TOKEN_MISSING"
code_text k_access_token_invalid = "ACCESS_TOKEN_INVALID"
code_text k_access_token_expired = "ACCESS_TOKEN_EXPIRED"
code_text k_refresh_token_invalid = "REFRESH_TOKEN_INVALID"
code_text k_organization_not_found = "ORGANIZATION_NOT_FOUND"
code_text k_city_not_found = "CITY_NOT_FOUND"
code_text k_breed_not_found = "BREED_NOT_FOUND"
code_text k_animal_not_found = "ANIMAL_NOT_FOUND"
code_text k_post_not_found = "POST_NOT_FOUND"
code_text k_review_already_exists = "REVIEW_ALREADY_EXISTS"
code_text k_review_not_found = "REVIEW_NOT_FOUND"
code_text k_adopt_request_already_exists = "ADOPT_REQUEST_ALREADY_EXISTS"
code_text k_animal_not_available = "ANIMAL_NOT_AVAILABLE"
code_text k_invalid_content_type = "INVALID_CONTENT_TYPE"
code_text k_upload_failed = "UPLOAD_FAILED"
code_text k_delete_failed = "DELETE_FAILED"

-- What a message of the validator says.
pub data Violation : Type 0 where
  blank mismatch : Violation
  too_short too_long too_many : ℕ → Violation
  not_one_of : List String → Violation

pub record FieldError : Type 0 where
  pub field_name : String
  pub violation : Violation

-- An error response: its status, and the code and the details of its body.
pub record ErrorBody : Type 0 where
  pub status : HttpStatus
  pub code : ErrorCode
  pub details : List FieldError
