-- ===== src/Http/Users/Form.antt =====
-- What the registration form accepts.
use pawspective_backend.Base.{
  ℕ, String, ◌≡◌, refl, ◌∙◌, arith, Bool, true, false, not, ◌&&◌, List, [], ◌∷◌, ◌++◌, length, leb,
  ltb, is_empty, Bool-cases, inl, inr, if◌then◌else◌,
}
use pawspective_backend.HttpErrors.{
  created_201, k_user_already_exists, FieldError, Violation, blank, mismatch, too_short, too_long,
}
use pawspective_backend.Errors.{Result, ok, err, user_already_exists, validation_failed}
use pawspective_backend.Models.Records.{User}
use pawspective_backend.Models.Dto.{UserDto, UserRegisterDto}
use pawspective_backend.Models.Convert.{user_to_dto}
use pawspective_backend.Db.Tables.{World}
use pawspective_backend.Exec.{pure, continue, rethrown, rethrow, ◌>>=◌}
use pawspective_backend.Services.Users.{Argon2, register_user}
use pawspective_backend.Tokens.Libraries.{Json}
use pawspective_backend.Http.ErrorResponse.{conflict, validation_error, throw_if_invalid}
use pawspective_backend.Http.Request.{Reply}
use pawspective_backend.Http.Forms.{parse_user_register}
use pawspective_backend.Std.Chars.{codes, lower}
use pawspective_backend.Http.Validator.{
  Validator, field, add_error, is_blank, not_blank, min_length, max_length, matches,
}
use pawspective_backend.Http.Users.{
  registration_errors, registration_exceptions, register_form, registration_handler,
}

-- The conditions on the fields of the form.
abbrev pub is_filled : ℕ → String → Bool
is_filled max value = not (is_blank value) && leb (length (codes value)) max

abbrev pub form_accepts : (String → Bool) → UserRegisterDto → Bool
form_accepts regex_match dto =
    (is_filled 255 dto.email && regex_match dto.email)
    && (not (is_blank dto.password)
        && (leb 8 (length (codes dto.password)) && leb (length (codes dto.password)) 100))
    && is_filled 255 dto.first_name
    && is_filled 255 dto.last_name

-- The reply to what the user service returns or throws.
abbrev pub created : Result User → Result (Reply UserDto)
created (ok user) = ok (record { status = created_201; body = user_to_dto user })
created (err user_already_exists) = err (conflict k_user_already_exists)
created (err e) = err (registration_exceptions e)

is_empty-append : {A : Type 0} (xs : List A) (x : A) → is_empty (xs ++ x ∷ []) ≡ false
is_empty-append [] x = refl
is_empty-append (y ∷ xs) x = refl

not-ltb : (a b : ℕ) → not (ltb a b) ≡ leb b a
not-ltb a b = ground arith

pub and_assoc : (a b c : Bool) → ((a && b) && c) ≡ (a && (b && c))
and_assoc a b c = ground arith

abbrev pub clean : Validator → Bool
clean v = is_empty v.errors

-- A check that adds an error where its test fails.
clean-if :
    (bad : Bool) (e : Violation) (v : Validator)
    → clean (if bad then add_error e v else v) ≡ (clean v && not bad)
unfolding add_error
clean-if true e v = is_empty-append v.errors _ ∙ ground arith
clean-if false e v = ground arith

value-if :
    (bad : Bool) (e : Violation) (v : Validator)
    → (if bad then add_error e v else v).current_value ≡ v.current_value
unfolding add_error
value-if true e v = refl
value-if false e v = refl

-- What each check does to the errors and to the value.
pub clean-not_blank :
    (v : Validator) → clean (not_blank v) ≡ (clean v && not (is_blank v.current_value))
unfolding not_blank
clean-not_blank v = clean-if (is_blank v.current_value) blank v

pub value-not_blank : (v : Validator) → (not_blank v).current_value ≡ v.current_value
unfolding not_blank
value-not_blank v = value-if (is_blank v.current_value) blank v

pub clean-min_length :
    (min : ℕ) (v : Validator)
    → clean (min_length min v) ≡ (clean v && leb min (length (codes v.current_value)))
unfolding min_length
clean-min_length min v =
    clean-if (ltb (length (codes v.current_value)) min) (too_short min) v
    ∙ rw (not-ltb (length (codes v.current_value)) min) refl

pub value-min_length :
    (min : ℕ) (v : Validator) → (min_length min v).current_value ≡ v.current_value
unfolding min_length
value-min_length min v = value-if (ltb (length (codes v.current_value)) min) (too_short min) v

pub clean-max_length :
    (max : ℕ) (v : Validator)
    → clean (max_length max v) ≡ (clean v && leb (length (codes v.current_value)) max)
unfolding max_length
clean-max_length max v =
    clean-if (ltb max (length (codes v.current_value))) (too_long max) v
    ∙ rw (not-ltb max (length (codes v.current_value))) refl

pub value-max_length :
    (max : ℕ) (v : Validator) → (max_length max v).current_value ≡ v.current_value
unfolding max_length
value-max_length max v = value-if (ltb max (length (codes v.current_value))) (too_long max) v

not-not : (b : Bool) → not (not b) ≡ b
not-not true = refl
not-not false = refl

pub clean-matches :
    (regex_match : String → Bool) (v : Validator)
    → clean (matches regex_match v) ≡ (clean v && regex_match v.current_value)
unfolding matches
clean-matches regex_match v =
    clean-if (not (regex_match v.current_value)) mismatch v
    ∙ rw (not-not (regex_match v.current_value)) refl

pub clean-field : (name value : String) (v : Validator) → clean (field name value v) ≡ clean v
unfolding field
clean-field name value v = refl

pub value-field : (name value : String) (v : Validator) → (field name value v).current_value ≡ value
unfolding field
value-field name value v = refl

pub ruleset checks = (
  clean-not_blank, value-not_blank, clean-min_length, value-min_length, clean-max_length,
  value-max_length, clean-matches, clean-field, value-field, and_assoc,
)

-- The validator finds no error exactly where the form's conditions hold.
pub clean-registration :
    (regex_match : String → Bool) (dto : UserRegisterDto)
    → is_empty (registration_errors regex_match dto) ≡ form_accepts regex_match dto
unfolding registration_errors
clean-registration regex_match dto = simp checks (refl)

created-eq :
    (r : Result User) (w : World)
    → continue
        (rethrown registration_exceptions r)
        (λ user. pure (record { status = created_201; body = user_to_dto user }))
        w
      ≡ (created r, w)
created-eq (ok user) w = refl
created-eq (err user_already_exists) w = refl
created-eq (err e) w = refl

throw_if_invalid-if :
    (errors : List FieldError)
    → throw_if_invalid errors ≡ (if is_empty errors then ok tt else err (validation_failed errors))
unfolding throw_if_invalid
throw_if_invalid-if errors = refl

-- A body that is read as a registration: where the conditions on its fields hold, with the e-mail
-- address in lower case, the handler answers 201 with the account that the user service registers
-- with this address, or what it answers to the service's exception; otherwise it answers 400 with
-- the details of the validation, and nothing is stored.
pub registration_handler-form :
    (json : Json) (argon2 : Argon2) (regex_match : String → Bool) (salt : ℕ) (body : json.Value)
    (given : UserRegisterDto) (w : World)
    → parse_user_register json body ≡ ok given
    → let dto : UserRegisterDto = record given { email = lower given.email } in
      let (result, after) = register_user argon2 salt dto w in
      registration_handler json argon2 regex_match salt body w ≡ (
        if form_accepts regex_match dto
        then (created result, after)
        else (err (validation_error (registration_errors regex_match dto)), w))
unfolding registration_handler register_form rethrow ◌>>=◌ user_to_dto
registration_handler-form json argon2 regex_match salt body given w read =
    let dto : UserRegisterDto = record given { email = lower given.email } in
    let valid = clean-registration regex_match dto in
    elim (Bool-cases (form_accepts regex_match dto)) [
      | inl good ↦
          rw (read, throw_if_invalid-if (registration_errors regex_match dto), valid, good)
            (created-eq (register_user argon2 salt dto w).0 (register_user argon2 salt dto w).1)
      | inr bad ↦
          rw (read, throw_if_invalid-if (registration_errors regex_match dto), valid, bad) refl
    ]
