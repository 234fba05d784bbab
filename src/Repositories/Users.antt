-- ===== src/Repositories/Users.antt =====
-- user_repository.cpp, over the table users: UNIQUE (email), organization_id REFERENCES
-- organizations.
use pawspective_backend.Base.{
  ℤ, pos, suc, String, Bool, true, false, not, ◌&&◌, Option, none, some, List, [], ◌∷◌, ◌++◌, ◌==◌,
  id_Eq, text_Eq, is_empty, if◌then◌else◌,
}
use pawspective_backend.Errors.{unique_violation, foreign_key_violation, sql_error, logic_error}
use pawspective_backend.Models.Records.{User}
use pawspective_backend.Db.Table.{
  find, first_row, where_rows, update_where, exists_row, has_key, has, has_opt,
}
use pawspective_backend.Db.Tables.{Db, User-keyed, Organization-keyed}
use pawspective_backend.Db.Cascade
use pawspective_backend.Exec.{Exec, pure, reads, writes, throw_if, or_throw, ◌>>=◌, ◌>>◌}
use pawspective_backend.Repositories.Patch.{given, Assignment, assign, text_given}
use pawspective_backend.Repositories.Catalogue.{among}

unfoldable pub get_by_id : ℤ → Exec (Option User)
get_by_id id = reads (λ db. find id db.users)

unfoldable pub get_by_email : String → Exec (Option User)
get_by_email email = reads (λ db. first_row (λ (u : User). u.email == email) db.users)

-- Another row has the e-mail address.
abbrev pub email_taken : ℤ → String → Db → Bool
email_taken id email db = exists_row (λ (u : User). u.email == email && not (u.id == id)) db.users

unfoldable pub create_user : User → Exec User
create_user user = do
  id ← reads (λ db. pos db.next_user)
  writes (λ db. record db { next_user = suc db.next_user })
  taken ← reads (λ db. exists_row (λ (u : User). u.email == user.email) db.users)
  throw_if taken unique_violation
  known ← reads (λ db. has_opt db.organizations user.organization_id)
  throw_if (not known) foreign_key_violation
  writes (λ db. record db { users = db.users ++ record user { id = id } ∷ [] })
  pure (record user { id = id })

unfoldable pub user_updates : User → List (Assignment User)
user_updates upd =
    given (text_given upd.email) (λ (u : User). record u { email = upd.email })
    ++ (given (text_given upd.first_name) (λ (u : User). record u { first_name = upd.first_name })
        ++ (given (text_given upd.last_name) (λ (u : User). record u { last_name = upd.last_name })
            ++ given (text_given upd.password_hash)
                (λ (u : User). record u { password_hash = upd.password_hash })))

-- `*get_by_id(id)` of a missing row is undefined, a result of no row is refused by `AsSingleRow`.
unfoldable pub update_user : ℤ → User → Exec User
unfolding user_updates
update_user id upd =
    if is_empty (user_updates upd)
    then (do row ← reads (λ db. find id db.users); or_throw row logic_error)
    else (do
      row ← reads (λ db. find id db.users)
      old ← or_throw row sql_error
      taken ← reads (λ db. email_taken id (assign (user_updates upd) old).email db)
      throw_if taken unique_violation
      writes (λ db. record db {
        users = update_where (has_key id) (assign (user_updates upd)) db.users;
      })
      pure (assign (user_updates upd) old))

unfoldable pub link_organization : ℤ → ℤ → Exec User
link_organization id org_id = do
  row ← reads (λ db. find id db.users)
  old ← or_throw row sql_error
  known ← reads (λ db. has db.organizations org_id)
  throw_if (not known) foreign_key_violation
  writes (λ db. record db {
    users =
        update_where (has_key id) (λ (u : User). record u { organization_id = some org_id })
          db.users;
  })
  pure (record old { organization_id = some org_id })

abbrev pub no_organization : Option User → Bool
no_organization none = false
no_organization (some u) = elim u.organization_id [ none ↦ true | some org ↦ false ]

unfoldable pub check_can_create_shelter : ℤ → Exec Bool
check_can_create_shelter id = reads (λ db. no_organization (find id db.users))

abbrev pub organization_of : Option User → Option ℤ
organization_of none = none
organization_of (some u) = u.organization_id

unfoldable pub get_organization_id_by_user_id : ℤ → Exec (Option ℤ)
get_organization_id_by_user_id id = reads (λ db. organization_of (find id db.users))

-- The map from ids to users, as the list of its users.
unfoldable pub get_by_ids : List ℤ → Exec (List User)
get_by_ids ids =
    reads (λ db. if is_empty ids then [] else where_rows (λ (u : User). among ids u.id) db.users)

unfoldable pub delete_user : ℤ → Exec Bool
unfolding Cascade.delete_user
delete_user id = do
  found ← reads (λ db. has db.users id)
  writes (Cascade.delete_user id)
  pure found
