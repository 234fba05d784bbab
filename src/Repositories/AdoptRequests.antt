-- ===== src/Repositories/AdoptRequests.antt =====
-- adopt_request_repository.cpp, over the table adopt_requests: UNIQUE (animal_id, user_id),
-- animal_id REFERENCES animals, user_id REFERENCES users.
use pawspective_backend.Base.{
  ℕ, ℤ, pos, suc, Bool, not, ◌&&◌, Option, List, [], ◌∷◌, ◌++◌, map, ◌==◌, id_Eq, length, id_leb,
}
use pawspective_backend.Errors.{unique_violation, foreign_key_violation}
use pawspective_backend.Models.Records.{AdoptRequest, Animal}
use pawspective_backend.Db.Table.{find, where_rows, reject, exists_row, has_key, has}
use pawspective_backend.Db.Tables.{Db, AdoptRequest-keyed, Animal-keyed, User-keyed}
use pawspective_backend.Exec.{Exec, pure, reads, writes, lift, throw_if, ◌>>=◌, ◌>>◌}
use pawspective_backend.Repositories.Paging.{page_window, page_rows, order_by}

abbrev pub is_request_of : ℤ → ℤ → AdoptRequest → Bool
is_request_of animal_id user_id r = r.animal_id == animal_id && r.user_id == user_id

abbrev pub new_request : ℤ → ℤ → ℤ → AdoptRequest
new_request id animal_id user_id = record { id = id; animal_id = animal_id; user_id = user_id }

unfoldable pub create : ℤ → ℤ → Exec AdoptRequest
create animal_id user_id = do
  id ← reads (λ db. pos db.next_adopt_request)
  writes (λ db. record db { next_adopt_request = suc db.next_adopt_request })
  taken ← reads (λ db. exists_row (is_request_of animal_id user_id) db.adopt_requests)
  throw_if taken unique_violation
  known ← reads (λ db. has db.animals animal_id && has db.users user_id)
  throw_if (not known) foreign_key_violation
  writes (λ db. record db {
    adopt_requests = db.adopt_requests ++ new_request id animal_id user_id ∷ [];
  })
  pure (new_request id animal_id user_id)

unfoldable pub get_by_id : ℤ → Exec (Option AdoptRequest)
get_by_id id = reads (λ db. find id db.adopt_requests)

-- A set of ids, as a list of them.
unfoldable pub get_animal_ids_by_user_id : ℤ → Exec (List ℤ)
get_animal_ids_by_user_id user_id = reads (λ db.
    map (λ (r : AdoptRequest). r.animal_id)
      (where_rows (λ (r : AdoptRequest). r.user_id == user_id) db.adopt_requests))

-- JOIN animals a ON ar.animal_id = a.id WHERE a.organization_id = $1
abbrev pub is_for_organization : ℤ → Db → AdoptRequest → Bool
is_for_organization org_id db r =
    exists_row (λ (a : Animal). a.id == r.animal_id && a.organization_id == org_id) db.animals

abbrev by_id : AdoptRequest → AdoptRequest → Bool
by_id a b = id_leb a.id b.id

unfoldable pub get_by_organization_id_paginated : ℤ → ℤ → ℤ → Exec (List AdoptRequest × ℕ)
unfolding page_window order_by
get_by_organization_id_paginated organization_id page limit = do
  window ← lift (page_window page limit)
  rows ← reads (λ db. where_rows (is_for_organization organization_id db) db.adopt_requests)
  pure (page_rows window.0 window.1 (order_by by_id rows), length rows)

unfoldable pub delete_by_id : ℤ → Exec Bool
delete_by_id id = do
  found ← reads (λ db. has db.adopt_requests id)
  writes (λ db. record db { adopt_requests = reject (has_key id) db.adopt_requests })
  pure found

abbrev pub is_for_animal : ℤ → AdoptRequest → Bool
is_for_animal animal_id r = r.animal_id == animal_id

unfoldable pub delete_by_animal_id : ℤ → Exec Bool
delete_by_animal_id animal_id = do
  found ← reads (λ db. exists_row (is_for_animal animal_id) db.adopt_requests)
  writes (λ db. record db { adopt_requests = reject (is_for_animal animal_id) db.adopt_requests })
  pure found
