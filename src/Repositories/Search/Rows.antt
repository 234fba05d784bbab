-- ===== src/Repositories/Search/Rows.antt =====
-- AnimalRepository::FindByFiltersPaginated.
use pawspective_backend.Base.{ℕ, ℤ, List}
use pawspective_backend.Models.Records.{Animal, AnimalFilters}
use pawspective_backend.Exec.{Exec, pure, reads, lift, ◌>>=◌}
use pawspective_backend.Repositories.Search.{search_clauses}
use pawspective_backend.Repositories.Search.Select.{select_count, select_rows}

-- The rows of the page and the number of all rows.
unfoldable pub find_by_filters_paginated : AnimalFilters → ℤ → ℤ → Exec (List Animal × ℕ)
unfolding search_clauses select_count select_rows
find_by_filters_paginated filter page limit = do
  (count_clause, data_clause) ← lift (search_clauses filter page limit)
  count_result ← reads (select_count count_clause)
  total_count ← lift count_result
  data_result ← reads (select_rows data_clause)
  animals ← lift data_result
  pure (animals, total_count)
