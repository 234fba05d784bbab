-- ===== src/Repositories/Organizations.antt =====
-- organization_repository.cpp, over the table organizations: city_id REFERENCES cities.
use pawspective_backend.Base.{
  ℕ, ℤ, pos, suc, String, Bool, not, Option, none, some, List, [], ◌∷◌, ◌++◌, ◌==◌, id_Eq, text_Eq,
  is_empty, has_value, length, if◌then◌else◌,
}
use pawspective_backend.Errors.{foreign_key_violation}
use pawspective_backend.Models.Records.{Organization}
use pawspective_backend.Models.Convert.{unset}
use pawspective_backend.Db.Table.{find, where_rows, update_where, has_key, has}
use pawspective_backend.Db.Tables.{Organization-keyed, City-keyed}
use pawspective_backend.Db.Cascade.{delete_organization}
use pawspective_backend.Exec.{Exec, pure, reads, writes, lift, throw_if, ◌>>=◌, ◌>>◌}
use pawspective_backend.Repositories.Patch.{given, Assignment, assign, text_given}
use pawspective_backend.Repositories.Paging.{page_window, to_int32, sql_offset, page_rows}

unfoldable pub get_by_id : ℤ → Exec (Option Organization)
get_by_id id = reads (λ db. find id db.organizations)

-- `name_matches` is ILIKE between the stored name and the escaped search text. The query has no
-- ORDER BY: its rows come in the order of the table.
unfoldable pub find_by_name_containing_paginated :
    (String → String → Bool) → String → ℤ → ℤ → Exec (List Organization × ℕ)
unfolding page_window to_int32 sql_offset
find_by_name_containing_paginated name_matches name page limit = do
  window ← lift (page_window page limit)
  rows ← reads (λ db. where_rows (λ (o : Organization). name_matches name o.name) db.organizations)
  offset ← lift (sql_offset (to_int32 window.1))
  pure (page_rows window.0 offset rows, length rows)

unfoldable pub create : Organization → Exec Organization
create organization = do
  id ← reads (λ db. pos db.next_organization)
  writes (λ db. record db { next_organization = suc db.next_organization })
  known ← reads (λ db. has db.cities organization.city_id)
  throw_if (not known) foreign_key_violation
  writes
      (λ db. record db { organizations = db.organizations ++ record organization { id = id } ∷ [] })
  pure (record organization { id = id })

-- An empty text is stored as NULL.
abbrev pub null_if_empty : Option String → Option String
null_if_empty none = none
null_if_empty (some text) = if text == "" then none else some text

unfoldable pub organization_updates : Organization → List (Assignment Organization)
organization_updates org =
    given (text_given org.name) (λ (o : Organization). record o { name = org.name })
    ++ (given (has_value org.description)
          (λ (o : Organization). record o { description = null_if_empty org.description })
        ++ (given (has_value org.avatar_url)
              (λ (o : Organization). record o { avatar_url = null_if_empty org.avatar_url })
            ++ given (not (org.city_id == unset))
                (λ (o : Organization). record o { city_id = org.city_id })))

-- The statement itself: no row, a row that would break fk_organizations_city, or the new row.
abbrev pub update_found :
    List (Assignment Organization) → Option Organization → Exec (Option Organization)
update_found fs none = pure none
update_found fs (some old) = do
  known ← reads (λ db. has db.cities (assign fs old).city_id)
  throw_if (not known) foreign_key_violation
  writes (λ db. record db {
    organizations = update_where (has_key old.id) (assign fs) db.organizations;
  })
  pure (some (assign fs old))

unfoldable pub update : Organization → Exec (Option Organization)
unfolding organization_updates
update org =
    if is_empty (organization_updates org) then reads (λ db. find org.id db.organizations) else (do
      row ← reads (λ db. find org.id db.organizations)
      update_found (organization_updates org) row)

unfoldable pub delete : ℤ → Exec Bool
unfolding delete_organization
delete id = do
  found ← reads (λ db. has db.organizations id)
  writes (delete_organization id)
  pure found
