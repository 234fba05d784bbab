-- ===== src/Repositories/Reviews.antt =====
-- review_repository.cpp, over the table reviews: UNIQUE (user_id, animal_id), animal_id
-- REFERENCES animals, user_id REFERENCES users.
use pawspective_backend.Base.{
  ℕ, ℤ, pos, suc, String, Bool, not, ◌&&◌, Option, none, some, List, [], ◌∷◌, ◌++◌, ◌==◌, id_Eq,
  length, leb,
}
use pawspective_backend.Errors.{unique_violation, foreign_key_violation}
use pawspective_backend.Models.Records.{Review, Animal}
use pawspective_backend.Db.Table.{find, where_rows, reject, update_where, exists_row, has_key, has}
use pawspective_backend.Db.Tables.{Db, Review-keyed, Animal-keyed, User-keyed}
use pawspective_backend.Exec.{Exec, pure, reads, writes, lift, throw_if, ◌>>=◌, ◌>>◌}
use pawspective_backend.Repositories.Paging.{page_window, to_int32, sql_offset, page_rows, order_by}

unfoldable pub get_by_id : ℤ → Exec (Option Review)
get_by_id review_id = reads (λ db. find review_id db.reviews)

-- JOIN animals a ON r.animal_id = a.id WHERE a.organization_id = $1
abbrev is_for_organization : ℤ → Db → Review → Bool
is_for_organization organization_id db r =
    exists_row (λ (a : Animal). a.id == r.animal_id && a.organization_id == organization_id)
      db.animals

-- ORDER BY created_at DESC; the order of rows with the same created_at is not laid down, so each call
-- takes the order `arrange` in which its query meets the rows.
abbrev pub newer : Review → Review → Bool
newer a b = leb b.created_at a.created_at

unfoldable pub get_by_organization_id_paginated :
    (List Review → List Review) → ℤ → ℤ → ℤ → Exec (List Review × ℕ)
unfolding page_window to_int32 sql_offset order_by
get_by_organization_id_paginated arrange organization_id page limit = do
  window ← lift (page_window page limit)
  rows ← reads (λ db. where_rows (is_for_organization organization_id db) db.reviews)
  offset ← lift (sql_offset (to_int32 window.1))
  pure (page_rows window.0 offset (order_by newer (arrange rows)), length rows)

abbrev pub is_review_of : ℤ → ℤ → Review → Bool
is_review_of user_id animal_id r = r.user_id == user_id && r.animal_id == animal_id

unfoldable pub exists_user_review_for_animal : ℤ → ℤ → Exec Bool
exists_user_review_for_animal user_id animal_id =
    reads (λ db. exists_row (is_review_of user_id animal_id) db.reviews)

unfoldable pub create : Review → Exec Review
create review = do
  id ← reads (λ db. pos db.next_review)
  now ← reads (λ db. db.now)
  writes (λ db. record db { next_review = suc db.next_review })
  taken ← reads (λ db. exists_row (is_review_of review.user_id review.animal_id) db.reviews)
  throw_if taken unique_violation
  known ← reads (λ db. has db.animals review.animal_id && has db.users review.user_id)
  throw_if (not known) foreign_key_violation
  writes
      (λ db. record db { reviews = db.reviews ++ record review { id = id; created_at = now } ∷ [] })
  pure (record review { id = id; created_at = now })

abbrev pub set_text : String → Review → Review
set_text text r = record r { text = text }

abbrev pub update_found : String → Option Review → Exec (Option Review)
update_found text none = pure none
update_found text (some old) = do
  writes (λ db. record db { reviews = update_where (has_key old.id) (set_text text) db.reviews })
  pure (some (set_text text old))

unfoldable pub update_text_by_id : ℤ → String → Exec (Option Review)
update_text_by_id review_id text = do
  row ← reads (λ db. find review_id db.reviews)
  update_found text row

unfoldable pub delete : ℤ → Exec Bool
delete review_id = do
  found ← reads (λ db. has db.reviews review_id)
  writes (λ db. record db { reviews = reject (has_key review_id) db.reviews })
  pure found
