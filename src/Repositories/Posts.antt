-- ===== src/Repositories/Posts.antt =====
-- post_repository.cpp, over the table posts: organization_id REFERENCES organizations.
use pawspective_backend.Base.{
  ℕ, ℤ, pos, suc, String, Bool, not, Option, none, some, List, [], ◌∷◌, ◌++◌, ◌==◌, id_Eq, text_Eq,
  is_empty, length, leb, if◌then◌else◌,
}
use pawspective_backend.Errors.{foreign_key_violation}
use pawspective_backend.Models.Records.{Post}
use pawspective_backend.Db.Table.{find, where_rows, reject, update_where, has_key, has}
use pawspective_backend.Db.Tables.{Post-keyed, Organization-keyed}
use pawspective_backend.Exec.{Exec, pure, reads, writes, lift, throw_if, ◌>>=◌, ◌>>◌}
use pawspective_backend.Repositories.Patch.{given, Assignment, assign, text_given}
use pawspective_backend.Repositories.Paging.{page_window, page_rows, order_by}

unfoldable pub get_by_id : ℤ → Exec (Option Post)
get_by_id id = reads (λ db. find id db.posts)

-- ORDER BY created_at DESC; the order of rows with the same created_at is not laid down, so each call
-- takes the order `arrange` in which its query meets the rows.
abbrev pub newer : Post → Post → Bool
newer a b = leb b.created_at a.created_at

unfoldable pub get_by_organization_id_paginated :
    (List Post → List Post) → ℤ → ℤ → ℤ → Exec (List Post × ℕ)
unfolding page_window order_by
get_by_organization_id_paginated arrange organization_id page limit = do
  window ← lift (page_window page limit)
  rows ← reads (λ db. where_rows (λ (p : Post). p.organization_id == organization_id) db.posts)
  pure (page_rows window.0 window.1 (order_by newer (arrange rows)), length rows)

unfoldable pub create : Post → Exec Post
create post = do
  id ← reads (λ db. pos db.next_post)
  now ← reads (λ db. db.now)
  writes (λ db. record db { next_post = suc db.next_post })
  known ← reads (λ db. has db.organizations post.organization_id)
  throw_if (not known) foreign_key_violation
  writes (λ db. record db { posts = db.posts ++ record post { id = id; created_at = now } ∷ [] })
  pure (record post { id = id; created_at = now })

abbrev pub set_photos : Option (List String) → List (Assignment Post)
set_photos none = []
set_photos (some photos) = (λ (p : Post). record p { photos = photos }) ∷ []

unfoldable pub post_updates : Post → Option (List String) → List (Assignment Post)
post_updates post upd_photos =
    given (text_given post.text) (λ (p : Post). record p { text = post.text })
    ++ set_photos upd_photos

abbrev pub update_found : List (Assignment Post) → Option Post → Exec (Option Post)
update_found fs none = pure none
update_found fs (some old) = do
  writes (λ db. record db { posts = update_where (has_key old.id) (assign fs) db.posts })
  pure (some (assign fs old))

unfoldable pub update : Post → Option (List String) → Exec (Option Post)
unfolding post_updates
update post upd_photos =
    if is_empty (post_updates post upd_photos) then reads (λ db. find post.id db.posts) else (do
      row ← reads (λ db. find post.id db.posts)
      update_found (post_updates post upd_photos) row)

unfoldable pub delete : ℤ → Exec Bool
delete id = do
  found ← reads (λ db. has db.posts id)
  writes (λ db. record db { posts = reject (has_key id) db.posts })
  pure found
