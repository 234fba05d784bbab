-- ===== src/Content/Reviews.antt =====
-- ReviewService::UpdateText and ReviewService::Delete.
pub mod Creation
use pawspective_backend.Base.{
  ℤ, ◌≡◌, refl, true, false, String, id_eq_iff, ◌==◌, id_Eq, text_Eq, Option, none, some,
  Bool-cases, Option-cases, inl, inr, if◌then◌else◌,
}
use pawspective_backend.Errors.{Result, ok, err, forbidden, review_not_found, animal_not_found}
use pawspective_backend.Models.Records.{Review, Animal}
use pawspective_backend.Models.Dto.{ReviewUpdateDto, ReviewDto}
use pawspective_backend.Db.Table.{find, reject, update_where, has_key}
use pawspective_backend.Db.Tables.{World, Breed-keyed, Animal-keyed, Review-keyed}
use pawspective_backend.Db.Rows.{All-first_row, first_row_sound}
use pawspective_backend.Db.Consistent.{IsConsistent}
use pawspective_backend.Models.Convert.{review_to_dto}
use mathlib.Core.Path.{ap}
use pawspective_backend.Exec.{◌>>=◌, throw_if, or_throw}
use pawspective_backend.Adoption.Step.{find-has, has-find}
use pawspective_backend.Services.Reviews

abbrev pub delete_found : ℤ → ℤ → Option Review → World → Result (Unit {0}) × World
delete_found user_id review_id none w = (err review_not_found, w)
delete_found user_id review_id (some review) w =
    if review.user_id == user_id
    then (
      ok tt,
      record w { db = record w.db { reviews = reject (has_key review_id) w.db.reviews } },
    )
    else (err forbidden, w)

-- Deleting a review removes exactly that review where its author asks for it; a review that is
-- not there and a user who did not write it are refused, and the state stays as it is.
pub delete-eq-delete_found :
    (user_id review_id : ℤ) (w : World)
    → Reviews.delete user_id review_id w
      ≡ delete_found user_id review_id (find review_id w.db.reviews) w
unfolding Reviews.delete ◌>>=◌ throw_if or_throw
delete-eq-delete_found user_id review_id w = elim (Option-cases (find review_id w.db.reviews)) [
  | inl missing ↦ rw missing refl
  | inr (review, found) ↦ elim (Bool-cases (review.user_id == user_id)) [
    | inl author ↦ rw (found, author, has-find _ _ review found) refl
    | inr other ↦ rw (found, other) refl
  ]
]

-- A review as its author sees it, with the name of its animal.
abbrev review_dto : Review → Option Animal → Result ReviewDto
review_dto review none = err animal_not_found
review_dto review (some animal) = ok (record {
  id = review.id;
  animal_id = review.animal_id;
  animal_name = animal.name;
  text = review.text;
  created_at = review.created_at;
  can_edit = true;
})

-- The review with another text, in the database too.
abbrev rewritten : ℤ → Review → String → World → Result ReviewDto × World
rewritten review_id review text w = (
  review_dto (record review { text = text }) (find review.animal_id w.db.animals),
  record w {
    db = record w.db {
      reviews =
          update_where (has_key review_id) (λ (r : Review). record r { text = text }) w.db.reviews;
    };
  },
)

abbrev author_outcome : ℤ → Option String → Review → World → Result ReviewDto × World
author_outcome review_id none review w = (review_dto review (find review.animal_id w.db.animals), w)
author_outcome review_id (some text) review w =
    if text == review.text
    then (review_dto review (find review.animal_id w.db.animals), w)
    else rewritten review_id review text w

abbrev pub update_outcome : ℤ → ℤ → Option String → Option Review → World → Result ReviewDto × World
update_outcome user_id review_id text none w = (err review_not_found, w)
update_outcome user_id review_id text (some review) w =
    if review.user_id == user_id then author_outcome review_id text review w else (err forbidden, w)

author-update_text :
    (user_id review_id : ℤ) (text : Option String) (w : World) (review : Review)
    → IsConsistent w.db
    → find review_id w.db.reviews ≡ some review
    → (review.user_id == user_id) ≡ true
    → Reviews.update_text user_id review_id (record { text = text }) w
      ≡ author_outcome review_id text review w
unfolding Reviews.update_text ◌>>=◌ throw_if or_throw
author-update_text user_id review_id none w review h found own =
    let asked = All-first_row _ _ _ review h.review_animal found in
    let (animal, at_home) = find-has w.db.animals review.animal_id asked in
    let (breed, bred) =
      find-has w.db.breeds _ (All-first_row _ _ _ animal h.animal_breed at_home) in
    rw (found, own, at_home, bred) refl
author-update_text user_id review_id (some text) w review h found own =
    let asked = All-first_row _ _ _ review h.review_animal found in
    let (animal, at_home) = find-has w.db.animals review.animal_id asked in
    let (breed, bred) =
      find-has w.db.breeds _ (All-first_row _ _ _ animal h.animal_breed at_home) in
    let same : review.id ≡ review_id =
      (id_eq_iff _ _).0 (first_row_sound (has_key review_id) w.db.reviews review found) in
    let back : ℤ → Result ReviewDto × World = λ id. (
      ok (review_to_dto (record review { text = text }) animal.name true),
      record w {
        db = record w.db {
          reviews =
              update_where (has_key id) (λ (r : Review). record r { text = text }) w.db.reviews;
        };
      },
    ) in
    elim (Bool-cases (text == review.text)) [
      | inl kept ↦ rw (found, own, kept, at_home, bred) refl
      | inr new ↦ rw (found, own, new, found, at_home, bred) (ap back same)
    ]

-- With every foreign key met, updating the text of a review on every branch: an unknown review and
-- a user who did not write it are refused, in this order, and the state stays; for its author the
-- review is returned with its animal's name and the text that is given, or its own where none is,
-- and of the database this text of this review changes, nothing where it is the one it has.
pub update_text-eq-update_outcome :
    (user_id review_id : ℤ) (dto : ReviewUpdateDto) (w : World)
    → IsConsistent w.db
    → Reviews.update_text user_id review_id dto w
      ≡ update_outcome user_id review_id dto.text (find review_id w.db.reviews) w
unfolding Reviews.update_text ◌>>=◌ throw_if or_throw
update_text-eq-update_outcome user_id review_id dto w h =
    elim (Option-cases (find review_id w.db.reviews)) [
      | inl missing ↦ rw missing refl
      | inr (review, found) ↦ elim (Bool-cases (review.user_id == user_id)) [
        | inl own ↦
            rw (author-update_text user_id review_id dto.text w review h found own)
              (rw (found, own) refl)
        | inr other ↦ rw (found, other) refl
      ]
    ]
