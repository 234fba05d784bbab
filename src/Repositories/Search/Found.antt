-- ===== src/Repositories/Search/Found.antt =====
-- What a page of the search shows.
use pawspective_backend.Base.{
  ℕ, suc, ◌%◌, ◌*◌, ◌<◌, ◌^◌, pos, ◌≡◌, refl, ◌∙◌, ap, Bool, true, List, length, arith,
}
use mathlib.Core.Path.{fun_ext}
use pawspective_backend.Errors.{ok, >>=-eq-ok}
use pawspective_backend.Models.Records.{Animal, AnimalFilters}
use pawspective_backend.Db.Table.{where_rows}
use pawspective_backend.Db.Tables.{Db, World, Breed-keyed, Organization-keyed}
use pawspective_backend.Sql.Builder.{build_query_clause}
use pawspective_backend.Exec
use pawspective_backend.Repositories.Paging.{to_int32, page_window, page_rows, order_by}
use pawspective_backend.Repositories.Animals.{by_id}
use pawspective_backend.Repositories.Search.{
  filter_whitelist, build_conditions, count_filter, data_filter, search_clauses,
}
use pawspective_backend.Repositories.Search.Selected.{
  fitting, select_count-fitting, select_rows-page,
}
use pawspective_backend.Repositories.Search.Rows.{find_by_filters_paginated}
use pawspective_backend.Repositories.Search.Clauses.{
  filter_specified, thrown-none, search_clauses-thrown,
}
use pawspective_backend.Repositories.Search.Meaning.{meets}
use pawspective_backend.Repositories.Search.Conditions.{build_conditions-Means}

to_int32-small : (n : ℕ) → n < 2 ^ 31 → to_int32 n ≡ pos n
unfolding to_int32
to_int32-small n h = let low : n % 2 ^ 32 ≡ n = omega arith in rw low (ground arith)

-- The rows that a page of the search shows, and the number of all that it finds.
abbrev pub found : AnimalFilters → ℕ → ℕ → Db → List Animal × ℕ
found f offset limit db =
    let rows = where_rows (meets db f) db.animals in
    (page_rows limit offset (order_by by_id rows), length rows)

-- Where no value of a filter is `kUnspecified` and the offset of the page is below 2^31, the two
-- queries that are sent give the animals that meet the filter, of which the page shows its part in
-- the order of their ids, and the state stays.
pub find_by_filters_paginated-found :
    (f : AnimalFilters) (p l : ℕ) (w : World)
    → filter_specified f ≡ true
    → p * suc l < 2 ^ 31
    → find_by_filters_paginated f (pos (suc p)) (pos (suc l)) w
      ≡ (ok (found f (p * suc l) (suc l) w.db), w)
unfolding find_by_filters_paginated search_clauses page_window Exec.◌>>=◌
find_by_filters_paginated-found f p l w specific small =
    let ((count_clause, data_clause), built) =
      thrown-none (search_clauses f (pos (suc p)) (pos (suc l)))
        (search_clauses-thrown f p l ∙ rw specific refl) in
    let (conditions, e, same) = build_conditions-Means f specific in
    let (given, e0, e1) = >>=-eq-ok (build_conditions f) _ built in
    let (counting, e2, e3) =
      >>=-eq-ok (build_query_clause (count_filter given) filter_whitelist) _ e1 in
    let (reading, e4, e5) =
      >>=-eq-ok
        (build_query_clause (data_filter given (suc l) (to_int32 (p * suc l))) filter_whitelist) _
        e3 in
    let alike : given ≡ conditions = cc in
    let rows : fitting w.db given ≡ where_rows (meets w.db f) w.db.animals =
      rw alike (ap (λ (q : Animal → Bool). where_rows q w.db.animals) (fun_ext (same w.db))) in
    let first = select_count-fitting w.db given counting e2 in
    let second =
      select_rows-page w.db given (suc l) (p * suc l) (to_int32 (p * suc l)) reading
        (to_int32-small (p * suc l) small) e4 in
    rw (e0, e2, e4, first, second, rows) refl
