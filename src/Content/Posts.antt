-- ===== src/Content/Posts.antt =====
-- PostService::Update and PostService::Delete: the files that are deleted with a post.
use pawspective_backend.Base.{
  is_empty, ℤ, String, ◌≡◌, refl, ◌∙◌, true, false, id_Eq, Option, none, some, List, [], ◌∷◌, ◌++◌,
  Bool-cases, inl, inr,
}
use mathlib.Core.Path.{ap}
use mathlib.Core.List.{append-nil, append_assoc}
use pawspective_backend.Errors.{ok, is_ok}
use pawspective_backend.Models.Records.{Post}
use pawspective_backend.Models.Dto.{PostUpdateDto}
use pawspective_backend.Db.Table.{find, reject}
use pawspective_backend.Db.Tables.{World, User-keyed, Post-keyed}
use pawspective_backend.Exec.{◌>>=◌, throw_if, or_throw}
use pawspective_backend.Repositories.Users.{organization_of}
use pawspective_backend.Services.Catalogue.{
  is_stranger, contains_url, delete_removed, delete_replaced,
}
use pawspective_backend.Models.Convert.{post_from_update_dto}
use pawspective_backend.Repositories.Posts.{post_updates}
use pawspective_backend.Services.Posts

-- The photos that an update takes away.
abbrev pub removed : Option (List String) → List String → List String
removed none old = []
removed (some new) old = reject (contains_url new) old

delete_removed_lem :
    (new old : List String) (w : World)
    → delete_removed new old w
      ≡ (ok tt, record w { deleted_files = w.deleted_files ++ reject (contains_url new) old })
unfolding ◌>>=◌ reject
delete_removed_lem new [] w = rw (append-nil w.deleted_files) refl
delete_removed_lem new (url ∷ old) w = elim (Bool-cases (contains_url new url)) [
  | inl kept ↦ rw kept (delete_removed_lem new old w)
  | inr gone ↦ rw gone (
      delete_removed_lem new old _
      ∙ ap (λ (files : List String). (ok tt, record w { deleted_files = files }))
          (append_assoc w.deleted_files (url ∷ []) (reject (contains_url new) old)))
]

delete_replaced_lem :
    (new : Option (List String)) (old : List String) (w : World)
    → delete_replaced new old w
      ≡ (ok tt, record w { deleted_files = w.deleted_files ++ removed new old })
delete_replaced_lem none old w = rw (append-nil w.deleted_files) refl
delete_replaced_lem (some new) old w = delete_removed_lem new old w

-- Where a user of its organization updates a post, the call returns, and the deleted files are
-- exactly the photos of the post that the new list of photos does not have, in their order; with
-- no new list, none.
pub update-deleted_files :
    (user_id post_id : ℤ) (dto : PostUpdateDto) (w : World) (post : Post)
    → find post_id w.db.posts ≡ some post
    → is_stranger (organization_of (find user_id w.db.users)) post.organization_id ≡ false
    → (is_ok (Posts.update user_id post_id dto w).0 ≡ true)
      × ((Posts.update user_id post_id dto w).1.deleted_files
          ≡ w.deleted_files ++ removed dto.photos post.photos)
unfolding Posts.update ◌>>=◌ throw_if or_throw
update-deleted_files user_id post_id dto w post found own =
    elim (Bool-cases (is_empty (post_updates (post_from_update_dto post_id dto) dto.photos))) [
      | inl nothing ↦ rw (found, own, nothing, found, delete_replaced_lem) (refl, refl)
      | inr something ↦ rw (found, own, something, found, delete_replaced_lem) (refl, refl)
    ]
