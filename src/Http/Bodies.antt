-- ===== src/Http/Bodies.antt =====
-- The forms of animals, organizations, posts and reviews: what the handlers check of a body before
-- they call the service.
use pawspective_backend.Base.{
  ℕ, suc, pos, String, Bool, Option, none, some, List, [], ◌∷◌, ◌++◌, length,
}
use pawspective_backend.HttpErrors.{FieldError}
use pawspective_backend.Errors.{Result}
use pawspective_backend.Models.Dto.{
  AnimalRegisterDto, AnimalUpdateDto, OrganizationRegisterDto, OrganizationUpdateDto, PostCreateDto,
  PostUpdateDto, ReviewCreateDto, ReviewUpdateDto,
}
use pawspective_backend.Exec.{Exec, lift, ◌>>=◌, ◌>>◌}
use pawspective_backend.Std.Chars.{codes, text_of}
use pawspective_backend.Std.Decimal.{to_string}
use pawspective_backend.Http.ErrorResponse.{throw_if_invalid}
use pawspective_backend.Http.Validator.{
  Validator, new_validator, field, not_blank, max_length, max_size, matches,
}

-- Reads a form, checks it and hands it to the service.
unfoldable pub checked_form :
    {Form B : Type 0} → (Form → List FieldError) → Result Form → (Form → Exec B) → Exec B
checked_form errors form service = do
  dto ← lift form
  lift (throw_if_invalid (errors dto))
  service dto

abbrev if_given : {A : Type 0} → (A → Validator → Validator) → Option A → Validator → Validator
if_given check none v = v
if_given check (some value) v = check value v

abbrev check_name : String → Validator → Validator
check_name value v = max_length 255 (not_blank (field "name" value v))

abbrev check_description : String → Validator → Validator
check_description value v = max_length 2000 (field "description" value v)

abbrev check_text : String → Validator → Validator
check_text value v = max_length 2000 (not_blank (field "text" value v))

-- fmt::format("photos[{}]", i)
abbrev photo_field : ℕ → String
photo_field i = text_of (codes "photos[" ++ (to_string (pos i) ++ codes "]"))

-- `is_photo` is the match of a file name by the regular expression of the handlers.
module _ (is_photo : String → Bool) where
  -- The loop over the photos.
  unfoldable pub check_photos : ℕ → List String → Validator → Validator
  unfolding field max_length matches to_string
  check_photos i [] v = v
  check_photos i (photo ∷ photos) v =
      check_photos (suc i) photos
        (matches is_photo (max_length 2000 (field (photo_field i) photo v)))

  abbrev check_photo_list : List String → Validator → Validator
  check_photo_list photos v = check_photos 0 photos (max_size "photos" (length photos) 10 v)

  abbrev check_avatar : String → Validator → Validator
  check_avatar value v = matches is_photo (max_length 2000 (field "avatar_url" value v))

  unfoldable pub animal_errors : AnimalRegisterDto → List FieldError
  unfolding check_photos field not_blank max_length max_size
  animal_errors dto =
      let v₁ = check_name dto.name new_validator in
      let v₂ = if_given check_description dto.description v₁ in
      let v₃ = check_photo_list dto.photos v₂ in v₃.errors

  unfoldable pub animal_update_errors : AnimalUpdateDto → List FieldError
  unfolding check_photos field not_blank max_length max_size
  animal_update_errors dto =
      let v₁ = if_given check_name dto.name new_validator in
      let v₂ = if_given check_description dto.description v₁ in
      let v₃ = if_given check_photo_list dto.photos v₂ in v₃.errors

  unfoldable pub organization_errors : OrganizationRegisterDto → List FieldError
  unfolding field not_blank max_length matches
  organization_errors dto =
      let v₁ = check_name dto.name new_validator in
      let v₂ = if_given check_avatar dto.avatar_url v₁ in
      let v₃ = if_given check_description dto.description v₂ in v₃.errors

  unfoldable pub organization_update_errors : OrganizationUpdateDto → List FieldError
  unfolding field not_blank max_length matches
  organization_update_errors dto =
      let v₁ = if_given check_name dto.name new_validator in
      let v₂ = if_given check_avatar dto.avatar_url v₁ in
      let v₃ = if_given check_description dto.description v₂ in v₃.errors

  unfoldable pub post_errors : PostCreateDto → List FieldError
  unfolding check_photos field not_blank max_length max_size
  post_errors dto =
      let v₁ = check_text dto.text new_validator in
      let v₂ = check_photo_list dto.photos v₁ in v₂.errors

  unfoldable pub post_update_errors : PostUpdateDto → List FieldError
  unfolding check_photos field not_blank max_length max_size
  post_update_errors dto =
      let v₁ = if_given check_text dto.text new_validator in
      let v₂ = if_given check_photo_list dto.photos v₁ in v₂.errors

unfoldable pub review_errors : ReviewCreateDto → List FieldError
unfolding field not_blank max_length
review_errors dto = let v₁ = check_text dto.text new_validator in v₁.errors

unfoldable pub review_update_errors : ReviewUpdateDto → List FieldError
unfolding field not_blank max_length
review_update_errors dto = let v₁ = if_given check_text dto.text new_validator in v₁.errors
