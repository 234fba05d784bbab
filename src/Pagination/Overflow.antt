-- ===== src/Pagination/Overflow.antt =====
-- The 32-bit OFFSET of ReviewRepository::GetByOrganizationIdPaginated and
-- OrganizationRepository::FindByNameContainingPaginated.
use pawspective_backend.Base.{
  ℕ, suc, ◌*◌, ◌%◌, ltb, pos, ◌≡◌, refl, Bool, id_Eq, List, length, Bool-cases, inl, inr,
  if◌then◌else◌, String,
}
use pawspective_backend.Errors.{Result, ok, err, sql_error}
use pawspective_backend.Models.Records.{Organization}
use pawspective_backend.Db.Table.{where_rows}
use pawspective_backend.Db.Tables.{World}
use pawspective_backend.Exec.{◌>>=◌}
use pawspective_backend.Repositories.Paging.{page_rows}
use pawspective_backend.Repositories.Organizations
use pawspective_backend.Services.Catalogue.{page_size}

abbrev pub offset_rows : {A : Type 0} → ℕ → List A → ℕ → Result (List A × ℕ)
offset_rows limit rows offset =
    let low = offset % 4294967296 in
    if ltb low 2147483648 then ok (page_rows limit low rows, length rows) else err sql_error

-- Page p + 1 of the search for organizations has the matching rows from p times the page size,
-- reduced modulo 2 ^ 32, on; where the reduced number is 2 ^ 31 or more, the call throws the
-- server's error for a negative OFFSET. The state stays as it is.
pub find_by_name-wraps :
    (name_matches : String → String → Bool) (name : String) (p : ℕ) (w : World)
    → Organizations.find_by_name_containing_paginated name_matches name
        (pos (suc p))
        (pos page_size)
        w
      ≡ (
        offset_rows page_size
            (where_rows (λ (o : Organization). name_matches name o.name) w.db.organizations)
            (p * page_size),
        w,
      )
unfolding Organizations.find_by_name_containing_paginated ◌>>=◌
find_by_name-wraps name_matches name p w =
    let low = (p * page_size) % 4294967296 in
    elim (Bool-cases (ltb low 2147483648)) [
      | inl fits ↦ rw fits refl
      | inr negative ↦ rw negative refl
    ]
