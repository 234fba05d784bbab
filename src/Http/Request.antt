-- ===== src/Http/Request.antt =====
-- What a handler reads of a request, and what it returns.
use pawspective_backend.Base.{ℤ, String, List, Option, none, some, not, pos, id_leb}
use pawspective_backend.HttpErrors.{
  HttpStatus, internal_server_error_500, k_missing_field, k_validation_error,
}
use pawspective_backend.Errors.{Exception, Result, ok, err, runtime_error, http_error}
use pawspective_backend.Db.Tables.{World}
use pawspective_backend.Exec.{Exec, pure, lift, throw_if, or_throw, rethrow, ◌>>=◌, ◌>>◌}
use pawspective_backend.Std.Chars.{codes}
use pawspective_backend.Std.Decimal.{stoll, stoi}
use pawspective_backend.Http.ErrorResponse.{client_error}

pub record HttpRequest : Type 0 where
  -- GetHeader(Authorization), empty where there is none
  pub authorization : String
  -- GetPathArg(name)
  pub path_arg : String → String
  -- HasArg(name) and GetArg(name)
  pub arg : String → Option String
  -- GetArgVector(name)
  pub arg_vector : String → List String

pub record Reply (Body : Type 0) : Type 0 where
  pub status : HttpStatus
  pub body : Body

-- context.GetData<int64_t>("user_id"); it throws where the auth checker has set nothing
unfoldable pub get_user_id : Option ℤ → Exec ℤ
get_user_id context = or_throw context runtime_error

abbrev pub every : Exception → Exception → Exception
every thrown e = thrown

-- std::stoll(request.GetPathArg("id")) with catch (const std::exception&)
unfoldable pub path_id : HttpRequest → Exception → Exec ℤ
unfolding stoll rethrow
path_id request thrown = rethrow (every thrown) (lift (stoll (codes (request.path_arg "id"))))

-- The status that the server sends: an exception without an answer is an internal error.
abbrev pub error_status : Exception → HttpStatus
error_status (http_error body) = body.status
error_status e = internal_server_error_500

abbrev pub status_of : {A : Type 0} → Result (Reply A) → HttpStatus
status_of (ok reply) = reply.status
status_of (err e) = error_status e

-- The status that a call sends and the state after it.
abbrev pub answer : {A : Type 0} → Result (Reply A) × World → HttpStatus × World
answer (r, w) = (status_of r, w)

-- std::stoll of the text of a query argument with catch (const std::exception&)
abbrev pub read_id : Exception → String → Exec ℤ
read_id thrown id_text = rethrow (every thrown) (lift (stoll (codes id_text)))

-- The page of a request, 1 where there is none.
abbrev pub read_page : Exception → Option String → Exec ℤ
read_page thrown none = pure (pos 1)
read_page thrown (some page_text) = do
  page ← rethrow (every thrown) (lift (stoi (codes page_text)))
  throw_if (not (id_leb (pos 1) page)) thrown
  pure page

-- The query argument `org_id` of the listings.
abbrev pub read_org_id : HttpRequest → Exec ℤ
read_org_id request = do
  org_text ← or_throw (request.arg "org_id") (client_error k_missing_field)
  org_id ← read_id (client_error k_validation_error) org_text
  throw_if (not (id_leb (pos 1) org_id)) (client_error k_validation_error)
  pure org_id
