-- ===== src/Errors.antt =====
-- The exceptions of services/exception.hpp, with those of the libraries that the code lets
-- through, and the result of code that may throw. Messages are left out.

use pawspective_backend.Base.{String, ◌≡◌, refl, Bool, true, false, List, ◌⊎◌, inl, inr}
use pawspective_backend.HttpErrors.{FieldError, ErrorBody}

pub data Exception : Type 0 where
  user_already_exists user_not_found invalid_credentials organization_not_found city_not_found :
      Exception
  animal_not_found breed_not_found forbidden animal_not_available post_not_found : Exception
  review_not_found review_already_exists invalid_token adopt_request_not_found : Exception
  adopt_request_already_exists : Exception
  -- std::invalid_argument, std::runtime_error, std::logic_error, std::out_of_range, HashError
  invalid_argument runtime_error logic_error out_of_range hash_error : Exception
  -- formats::json: Exception, ParseException, MemberMissingException, TypeMismatchException; the
  -- last three are derived from the first
  json_exception parse_exception member_missing type_mismatch : Exception
  -- the verifier of a signature and the decoder of base64
  verification_error decode_error : Exception
  -- storages::postgres: UniqueViolation, ForeignKeyViolation, and every other server error
  unique_violation foreign_key_violation sql_error : Exception
  -- utils::ValidationException, and the exceptions of the server that carry an error response
  validation_failed : List FieldError → Exception
  http_error : ErrorBody → Exception

pub data Result {ℓ} (Value : Type ℓ) : Type ℓ where
  err : Exception → Result Value
  ok : Value → Result Value

-- What `f` returns for a text it also returns for an equal one.
pub ok-at_equal :
    {A : Type 0} (f : String → Result A) (v : A) (t s : String)
    → f t ≡ ok v
    → ok t ≡ ok s
    → f s ≡ ok v
ok-at_equal f v t s p h = let e : s ≡ t = cc in rw e p

infixl 5 ◌>>=◌
abbrev pub ◌>>=◌ {ℓ κ} :
    {Value : Type ℓ} {Next : Type κ} → Result Value → (Value → Result Next) → Result Next
err thrown >>= then_do = err thrown
ok value >>= then_do = then_do value

-- Inversion of a successful bind.
pub >>=-eq-ok {ℓ κ} :
    {Value : Type ℓ} {Next : Type κ} (first : Result Value) (rest : Value → Result Next)
    {last : Next}
    → (first >>= rest) ≡ ok last
    → (value : Value) × (first ≡ ok value) × (rest value ≡ ok last)
>>=-eq-ok (err thrown) rest h = cc
>>=-eq-ok (ok value) rest h = (value, refl, h)

abbrev pub is_ok {ℓ} : {A : Type ℓ} → Result A → Bool
is_ok (ok a) = true
is_ok (err e) = false

pub Result-cases :
    {A : Type 0} (r : Result A) → ((a : A) × (r ≡ ok a)) ⊎ ((e : Exception) × (r ≡ err e))
Result-cases (ok a) = inl (a, refl)
Result-cases (err e) = inr (e, refl)
