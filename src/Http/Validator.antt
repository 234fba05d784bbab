-- ===== src/Http/Validator.antt =====
-- utils/src/validator.cpp: the checks of a chain, each on the field that was named last.
use pawspective_backend.Base.{
  ℕ, String, Bool, ◌||◌, List, [], ◌∷◌, ◌++◌, all, any, is_empty, length, ltb, not, ◌==◌, text_Eq,
  if◌then◌else◌,
}
use pawspective_backend.HttpErrors.{
  Violation, blank, mismatch, too_short, too_long, too_many, not_one_of, FieldError,
}
use pawspective_backend.Std.Chars.{codes, is_space}

pub record Validator : Type 0 where
  pub current_field : String
  pub current_value : String
  pub errors : List FieldError

abbrev pub new_validator : Validator
new_validator = record { current_field = ""; current_value = ""; errors = [] }

unfoldable pub field : String → String → Validator → Validator
field name value v = record v { current_field = name; current_value = value }

unfoldable pub add_error : Violation → Validator → Validator
add_error violation v = record v {
  errors = v.errors ++ record { field_name = v.current_field; violation = violation } ∷ [];
}

unfoldable pub is_blank : String → Bool
unfolding is_space
is_blank value = is_empty (codes value) || all is_space (codes value)

unfoldable pub not_blank : Validator → Validator
unfolding is_blank add_error
not_blank v = if is_blank v.current_value then add_error blank v else v

unfoldable pub min_length : ℕ → Validator → Validator
unfolding add_error
min_length min v =
    if ltb (length (codes v.current_value)) min then add_error (too_short min) v else v

unfoldable pub max_length : ℕ → Validator → Validator
unfolding add_error
max_length max v =
    if ltb max (length (codes v.current_value)) then add_error (too_long max) v else v

unfoldable pub max_size : String → ℕ → ℕ → Validator → Validator
max_size name count max v =
    if ltb max count
    then record v {
      errors = v.errors ++ record { field_name = name; violation = too_many max } ∷ [];
    }
    else v

-- `regex_match` is a function of the library.
unfoldable pub matches : (String → Bool) → Validator → Validator
unfolding add_error
matches regex_match v = if not (regex_match v.current_value) then add_error mismatch v else v

unfoldable pub is_one_of : List String → Validator → Validator
unfolding add_error
is_one_of allowed v =
    if not (any (λ t. t == v.current_value) allowed) then add_error (not_one_of allowed) v else v
