-- ===== src/Http/ErrorResponse.antt =====
-- utils/src/error_response.cpp and utils/src/exception.cpp: the exceptions that carry an answer.
use pawspective_backend.Base.{List, [], ◌∷◌, ◌==◌, text_Eq, is_empty, if◌then◌else◌}
use pawspective_backend.HttpErrors.{
  HttpStatus, bad_request_400, unauthorized_401, forbidden_403, not_found_404, conflict_409,
  ErrorCode, k_validation_error, k_missing_field, k_invalid_json_format, FieldError,
}
use pawspective_backend.Errors.{
  Exception, http_error, validation_failed, member_missing, json_exception, parse_exception,
  type_mismatch, Result, ok, err,
}

-- ErrorResponse(code, …).Throw…()
abbrev pub error_response : HttpStatus → ErrorCode → Exception
error_response status code = http_error (record { status = status; code = code; details = [] })

abbrev pub client_error : ErrorCode → Exception
client_error code = error_response bad_request_400 code

abbrev pub unauthorized : ErrorCode → Exception
unauthorized code = error_response unauthorized_401 code

abbrev pub forbidden_error : ErrorCode → Exception
forbidden_error code = error_response forbidden_403 code

abbrev pub conflict : ErrorCode → Exception
conflict code = error_response conflict_409 code

abbrev pub not_found : ErrorCode → Exception
not_found code = error_response not_found_404 code

-- details[error.field_name] = error.error_message
unfoldable pub put_detail : FieldError → List FieldError → List FieldError
put_detail e [] = e ∷ []
put_detail e (d ∷ details) =
    let rest = put_detail e details in
    if d.field_name == e.field_name then e ∷ details else d ∷ rest

unfoldable pub put_details : List FieldError → List FieldError → List FieldError
unfolding put_detail
put_details details [] = details
put_details details (e ∷ errors) = put_details (put_detail e details) errors

-- ValidationException::ThrowClientError
abbrev pub validation_error : List FieldError → Exception
validation_error errors = http_error (record {
  status = bad_request_400;
  code = k_validation_error;
  details = put_details [] errors;
})

-- Validator::ThrowIfInvalid
unfoldable pub throw_if_invalid : List FieldError → Result (Unit {0})
throw_if_invalid errors = if is_empty errors then ok tt else err (validation_failed errors)

-- catch MemberMissingException, then json::Exception, from which the others of JSON are derived,
-- then ValidationException
abbrev pub body_errors : Exception → Exception
body_errors member_missing = client_error k_missing_field
body_errors json_exception = client_error k_invalid_json_format
body_errors parse_exception = client_error k_invalid_json_format
body_errors type_mismatch = client_error k_invalid_json_format
body_errors (validation_failed errors) = validation_error errors
body_errors e = e
