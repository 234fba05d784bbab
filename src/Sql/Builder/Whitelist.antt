-- ===== src/Sql/Builder/Whitelist.antt =====
-- The whitelist decides whether a clause is built.
use pawspective_backend.Base.{
  Option, none, some, if◌then◌else◌, ℕ, ◌+◌, ◌≡◌, refl, inl, inr, Bool, true, false, ◌&&◌, List, [],
  ◌∷◌, ◌++◌, arith, length, any, all, String, eq_iff, ◌==◌, text_Eq, Bool-cases,
}
use pawspective_backend.Errors.{Exception, Result, ok, err, ◌>>=◌, invalid_argument}
use pawspective_backend.Sql.Builder.{
  Op, ilike, Value, Condition, SortSpec, FieldWhitelist, QueryWhitelist, QueryFilter, Piece, sql,
  get_column_name, condition_pieces, where_loop, order_loop, where_part, order_part,
  build_query_clause,
}

-- The field stands in the whitelist.
abbrev pub listed : FieldWhitelist → String → Bool
listed whitelist name = any (λ (e : String × String). e.0 == name) whitelist

-- The text is the column of an entry of the whitelist.
abbrev pub is_column : FieldWhitelist → String → Bool
is_column whitelist column = any (λ (e : String × String). e.1 == column) whitelist

pub get_column_name-listed :
    (w : FieldWhitelist) (name : String)
    → listed w name ≡ true
    → (column : String) × (get_column_name w name ≡ ok column) × (is_column w column ≡ true)
unfolding get_column_name
get_column_name-listed [] name h = cc
get_column_name-listed ((key, column) ∷ w) name h = elim (Bool-cases (key == name)) [
  | inl same ↦ (column, rw same, ground (arith, eq_iff column column))
  | inr other ↦
      let (found, e, c) = get_column_name-listed w name (rw other at h) in
      (found, rw other e, ground arith)
]

pub get_column_name_unlisted :
    (w : FieldWhitelist) (name : String)
    → listed w name ≡ false
    → get_column_name w name ≡ err invalid_argument
unfolding get_column_name
get_column_name_unlisted [] name h = refl
get_column_name_unlisted ((key, column) ∷ w) name h =
    ground (arith, get_column_name_unlisted w name)

pub condition_pieces_total :
    (op : Op) (column : String) (n : ℕ)
    → (pieces : List Piece) × (condition_pieces op column n ≡ ok pieces)
unfolding condition_pieces
condition_pieces_total ilike column n = (_, refl)
condition_pieces_total _ column n = (_, refl)

abbrev pub conditions_listed : FieldWhitelist → List Condition → Bool
conditions_listed w conditions = all (λ (c : Condition). listed w c.column) conditions

abbrev pub sorts_listed : FieldWhitelist → List SortSpec → Bool
sorts_listed w specs = all (λ (s : SortSpec). listed w s.column) specs

-- How the parts end, by what the whitelist holds.
abbrev EndsAs {ℓ} : {A : Type ℓ} → Bool → Result A → Type ℓ
EndsAs {A} true r = (a : A) × (r ≡ ok a)
EndsAs false r = r ≡ err invalid_argument

EndsAs-bind {ℓ} :
    {A B : Type ℓ} (b c : Bool) (m : Result A) (f : A → Result B)
    → EndsAs b m
    → ((a : A) → EndsAs c (f a))
    → EndsAs (b && c) (m >>= f)
EndsAs-bind true c m f h k = rw h.1 (k h.0)
EndsAs-bind false c m f h k = rw h refl

EndsAs-pure {ℓ} :
    {A B : Type ℓ} (b : Bool) (m : Result A) (f : A → B)
    → EndsAs b m
    → EndsAs b (m >>= λ a. ok (f a))
EndsAs-pure true m f h = rw h.1 (f h.0, refl)
EndsAs-pure false m f h = rw h refl

where_loop_ends :
    (w : FieldWhitelist) (conditions : List Condition) (query : List Piece) (params : List Value)
    → EndsAs (conditions_listed w conditions) (where_loop w conditions query params)
unfolding where_loop
where_loop_ends w [] query params = (_, refl)
where_loop_ends w (cond ∷ conditions) query params = elim (Bool-cases (listed w cond.column)) [
  | inl known ↦
      let (column, found, c) = get_column_name-listed w cond.column known in
      let (pieces, written) = condition_pieces_total cond.op column (length params + 1) in
      rw (known, found, written) (where_loop_ends w conditions _ _)
  | inr unknown ↦ rw (unknown, get_column_name_unlisted w cond.column unknown) refl
]

order_loop_ends :
    (w : FieldWhitelist) (specs : List SortSpec) (query : List Piece)
    → EndsAs (sorts_listed w specs) (order_loop w specs query)
unfolding order_loop
order_loop_ends w [] query = (_, refl)
order_loop_ends w (spec ∷ specs) query = elim (Bool-cases (listed w spec.column)) [
  | inl known ↦
      let (column, found, c) = get_column_name-listed w spec.column known in
      rw (known, found) (order_loop_ends w specs _)
  | inr unknown ↦ rw (unknown, get_column_name_unlisted w spec.column unknown) refl
]

where_part_ends :
    (w : FieldWhitelist) (conditions : List Condition)
    → EndsAs (conditions_listed w conditions) (where_part w conditions)
unfolding where_part
where_part_ends w [] = (_, refl)
where_part_ends w (cond ∷ conditions) =
    where_loop_ends w (cond ∷ conditions) (sql " WHERE " ∷ []) []

order_part_ends :
    (w : FieldWhitelist) (specs : List SortSpec) (query : List Piece)
    → EndsAs (sorts_listed w specs) (order_part w specs query)
unfolding order_part
order_part_ends w [] query = (_, refl)
order_part_ends w (spec ∷ specs) query =
    order_loop_ends w (spec ∷ specs) (query ++ sql " ORDER BY " ∷ [])

-- What a call threw, if it did.
abbrev pub thrown : {A : Type 0} → Result A → Option Exception
thrown (ok a) = none
thrown (err e) = some e

EndsAs-thrown :
    {A : Type 0} (b : Bool) (r : Result A)
    → EndsAs b r
    → thrown r ≡ (if b then none else some invalid_argument)
EndsAs-thrown true r h = rw h.1 refl
EndsAs-thrown false r h = rw h refl

-- A clause is built when every field of the conditions and of the sort specifications is in its
-- whitelist; otherwise `std::invalid_argument` is thrown, and nothing else ever is.
pub build_query_clause-whitelist :
    (filter : QueryFilter) (whitelist : QueryWhitelist)
    → thrown (build_query_clause filter whitelist) ≡ (
        if conditions_listed whitelist.filter_fields filter.conditions
          && sorts_listed whitelist.sort_fields filter.sort_specs
        then none
        else some invalid_argument)
unfolding build_query_clause
build_query_clause-whitelist filter whitelist = EndsAs-thrown _ _ (
    EndsAs-bind _ _ _ _ (where_part_ends whitelist.filter_fields filter.conditions) λ clause.
      EndsAs-pure _ _ _ (order_part_ends whitelist.sort_fields filter.sort_specs clause.query))
