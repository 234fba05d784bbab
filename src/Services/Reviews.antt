-- ===== src/Services/Reviews.antt =====
-- review_service.cpp
use pawspective_backend.Base.{
  ℤ, pos, String, Bool, false, not, Option, none, some, List, [], ◌∷◌, map, ◌==◌, id_Eq, text_Eq,
  if◌then◌else◌,
}
use pawspective_backend.Errors.{forbidden, review_not_found, review_already_exists}
use pawspective_backend.Models.Records.{Review}
use pawspective_backend.Models.Dto.{ReviewDto, ReviewCreateDto, ReviewUpdateDto, ListDto}
use pawspective_backend.Models.Convert.{review_from_create_dto, review_to_dto}
use pawspective_backend.Exec.{Exec, pure, throw_if, or_throw, ◌>>=◌, ◌>>◌}
use pawspective_backend.Repositories.Reviews
use pawspective_backend.Services.Catalogue.{page_size, list_dto}
use pawspective_backend.Services.Organizations
use pawspective_backend.Services.Animals

-- `animal_names[id]`: a missing id gives the empty text.
abbrev name_at : List (ℤ × String) → ℤ → String
name_at [] id = ""
name_at ((i, name) ∷ names) id = if i == id then name else name_at names id

-- `user_id.has_value() && review.user_id == user_id.value()`
abbrev is_author : Option ℤ → ℤ → Bool
is_author none author = false
is_author (some user_id) author = author == user_id

unfoldable pub get_by_organization_id_paginated :
    (List Review → List Review) → ℤ → ℤ → Option ℤ → Exec (ListDto ReviewDto)
unfolding Organizations.get Reviews.get_by_organization_id_paginated Animals.get_names
get_by_organization_id_paginated arrange organization_id page user_id = do
  Organizations.get organization_id
  (reviews, total_count) ←
      Reviews.get_by_organization_id_paginated arrange organization_id page (pos page_size)
  animal_names ← Animals.get_names (map (λ (r : Review). r.animal_id) reviews)
  pure (
      list_dto
        (map
          (λ (r : Review).
            review_to_dto r (name_at animal_names r.animal_id) (is_author user_id r.user_id))
          reviews)
        page total_count)

unfoldable pub create : ℤ → ReviewCreateDto → Exec ReviewDto
unfolding Animals.get Organizations.get Reviews.exists_user_review_for_animal Reviews.create
create user_id dto = do
  animal ← Animals.get dto.animal_id none
  Organizations.get animal.organization_id
  reviewed ← Reviews.exists_user_review_for_animal user_id dto.animal_id
  throw_if reviewed review_already_exists
  created ← Reviews.create (review_from_create_dto dto user_id)
  again ← Animals.get created.animal_id none
  pure (review_to_dto created again.name Bool.true)

-- `!text.has_value() || text == review->text`
abbrev pub unchanged : Option String → String → Bool
unchanged none old = Bool.true
unchanged (some text) old = text == old

abbrev pub text_or_empty : Option String → String
text_or_empty none = ""
text_or_empty (some text) = text

abbrev pub keep_text : Review → Exec ReviewDto
keep_text review = do
  animal ← Animals.get review.animal_id none
  pure (review_to_dto review animal.name Bool.true)

abbrev pub change_text : ℤ → Review → String → Exec ReviewDto
change_text review_id review text = do
  result ← Reviews.update_text_by_id review_id text
  updated ← or_throw result review_not_found
  animal ← Animals.get review.animal_id none
  pure (review_to_dto updated animal.name Bool.true)

unfoldable pub update_text : ℤ → ℤ → ReviewUpdateDto → Exec ReviewDto
unfolding Reviews.get_by_id Animals.get Reviews.update_text_by_id
update_text user_id review_id dto = do
  row ← Reviews.get_by_id review_id
  review ← or_throw row review_not_found
  throw_if (not (review.user_id == user_id)) forbidden
  if unchanged dto.text review.text
      then keep_text review
      else change_text review_id review (text_or_empty dto.text)

unfoldable pub delete : ℤ → ℤ → Exec (Unit {0})
unfolding Reviews.get_by_id Reviews.delete
delete user_id review_id = do
  row ← Reviews.get_by_id review_id
  review ← or_throw row review_not_found
  throw_if (not (review.user_id == user_id)) forbidden
  deleted ← Reviews.delete review_id
  throw_if (not deleted) review_not_found
