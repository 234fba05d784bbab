-- ===== src/Repositories/Paging.antt =====
-- The checks of the paginated queries, LIMIT and OFFSET, and ORDER BY.
use pawspective_backend.Base.{
  ℕ, suc, ◌+◌, ◌-◌, ◌*◌, ◌/◌, ◌%◌, ◌^◌, ℤ, pos, negsuc, Bool, List, [], ◌∷◌, take, drop, ltb, eqb,
  if◌then◌else◌,
}
use pawspective_backend.Errors.{Result, ok, err, invalid_argument, sql_error}

-- `if (page < 1 || limit <= 0) throw std::invalid_argument(…)`: the limit and the offset
-- `static_cast<std::int64_t>(page - 1) * limit`.
unfoldable pub page_window : ℤ → ℤ → Result (ℕ × ℕ)
page_window (pos (suc p)) (pos (suc l)) = ok (suc l, p * suc l)
page_window _ _ = err invalid_argument

-- `static_cast<int>` of a number that is not negative.
unfoldable pub to_int32 : ℕ → ℤ
to_int32 n = let low = n % 2 ^ 32 in if ltb low (2 ^ 31) then pos low else negsuc (2 ^ 32 - low - 1)

-- PostgreSQL refuses a negative OFFSET.
unfoldable pub sql_offset : ℤ → Result ℕ
sql_offset (pos n) = ok n
sql_offset (negsuc n) = err sql_error

-- LIMIT and OFFSET
abbrev pub page_rows {ℓ} : {A : Type ℓ} → ℕ → ℕ → List A → List A
page_rows limit offset rows = take limit (drop offset rows)

module _ {A : Type 0} (before : A → A → Bool) where
  unfoldable pub insert_row : A → List A → List A
  insert_row x [] = x ∷ []
  insert_row x (y ∷ rows) =
      let rest = insert_row x rows in if before x y then x ∷ y ∷ rows else y ∷ rest

  -- ORDER BY; rows that are equal under the order keep the order of the table
  unfoldable pub order_by : List A → List A
  unfolding insert_row
  order_by [] = []
  order_by (x ∷ rows) = insert_row x (order_by rows)

-- total_count == 0 ? 1 : (total_count + kPageSize - 1) / kPageSize
unfoldable pub total_pages : ℕ → ℕ → ℕ
total_pages total_count page_size =
    if eqb total_count 0 then 1 else (total_count + page_size - 1) / page_size
