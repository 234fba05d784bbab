-- ===== src/Accounts/Deletion.antt =====
-- UserService::DeleteUser with the referential actions and the trigger of the schema.
use pawspective_backend.Base.{
  ℤ, ◌≡◌, refl, ◌∙◌, Bool, true, false, ◌==◌, id_Eq, Option, none, some, List, [], ◌∷◌, All,
  Bool-cases, inl, inr,
}
use mathlib.Core.Path.{fun_ext, subst}
use pawspective_backend.Errors.{ok}
use pawspective_backend.Models.Records.{User, Animal, Post, Review, AdoptRequest, Session}
use pawspective_backend.Db.Table.{find, has, has_key, where_rows, reject, update_where, exists_row}
use pawspective_backend.Db.Tables.{Db, World, Organization-keyed, User-keyed, Animal-keyed}
use pawspective_backend.Db.Rows.{
  All-reject, All-reject_self, exists_row-update_where, exists_row-eq_false,
}
use pawspective_backend.Db.Cascade
use pawspective_backend.Db.Cascade.{refers}
use pawspective_backend.Exec.{◌>>=◌, throw_if, or_throw}
use pawspective_backend.Services.Users.{delete_user}
use pawspective_backend.Adoption.Step.{has-find}

-- Of the database before, an animal of the organization.
abbrev is_animal_of : ℤ → Db → ℤ → Bool
is_animal_of org db id = has (where_rows (λ (a : Animal). a.organization_id == org) db.animals) id

-- The second database names neither the user, nor the organization, nor any animal that the first
-- one has for the organization.
abbrev pub IsForgotten : ℤ → ℤ → Db → Db → Type 0
IsForgotten id org before db =
    (has db.users id ≡ false)
    × (has db.organizations org ≡ false)
    × All (λ (u : User). refers u.organization_id org ≡ false) db.users
    × All (λ (s : Session). (s.user_id == id) ≡ false) db.sessions
    × All (λ (r : Review). (r.user_id == id) ≡ false) db.reviews
    × All (λ (r : Review). is_animal_of org before r.animal_id ≡ false) db.reviews
    × All (λ (r : AdoptRequest). (r.user_id == id) ≡ false) db.adopt_requests
    × All (λ (r : AdoptRequest). is_animal_of org before r.animal_id ≡ false) db.adopt_requests
    × All (λ (a : Animal). (a.organization_id == org) ≡ false) db.animals
    × All (λ (a : Animal). refers a.user_id id ≡ false) db.animals
    × All (λ (p : Post). (p.organization_id == org) ≡ false) db.posts

-- A column that ON DELETE SET NULL empties refers to the deleted row no longer.
All-set_null :
    {Row : Type 0} (get : Row → Option ℤ) (clear : Row → Row) (i : ℤ) (rows : List Row)
    → ((r : Row) → get (clear r) ≡ none)
    → All
        (λ (r : Row). refers (get r) i ≡ false)
        (update_where (λ (r : Row). refers (get r) i) clear rows)
unfolding update_where
All-set_null get clear i [] h = tt
All-set_null get clear i (r ∷ rows) h = elim (Bool-cases (refers (get r) i)) [
  | inl hit ↦ rw hit (rw (h r) refl, All-set_null get clear i rows h)
  | inr miss ↦ rw miss (miss, All-set_null get clear i rows h)
]

-- What is left has no row of `p` where `q` says the same as `p`.
All-reject_same :
    {Row : Type 0} (p q : Row → Bool) (rows : List Row)
    → ((r : Row) → q r ≡ p r)
    → All (λ (r : Row). p r ≡ false) (reject q rows)
All-reject_same p q rows h =
    subst (λ (f : _ → Bool). All (λ r. f r ≡ false) (reject q rows)) (fun_ext h)
      (All-reject_self q rows)

-- Clearing the column user_id keeps which animals an organization has.
is_animal_of-clear :
    (org id j : ℤ) (animals : List Animal)
    → has
        (where_rows
          (λ (a : Animal). a.organization_id == org)
          (update_where
            (λ (a : Animal). refers a.user_id id)
            (λ (a : Animal). record a { user_id = none })
            animals))
        j
      ≡ has (where_rows (λ (a : Animal). a.organization_id == org) animals) j
unfolding update_where where_rows exists_row
is_animal_of-clear org id j [] = refl
is_animal_of-clear org id j (a ∷ animals) = elim (Bool-cases (refers a.user_id id)) [
  | inl hit ↦ elim (Bool-cases (a.organization_id == org)) [
    | inl own ↦ rw (hit, own, is_animal_of-clear org id j animals) refl
    | inr other ↦ rw (hit, other) (is_animal_of-clear org id j animals)
  ]
  | inr miss ↦ elim (Bool-cases (a.organization_id == org)) [
    | inl own ↦ rw (miss, own, is_animal_of-clear org id j animals) refl
    | inr other ↦ rw (miss, other) (is_animal_of-clear org id j animals)
  ]
]

cascade-IsForgotten :
    (id org : ℤ) (db : Db) (user : User)
    → find id db.users ≡ some user
    → user.organization_id ≡ some org
    → IsForgotten id org db (Cascade.delete_user id db)
unfolding Cascade.delete_user
cascade-IsForgotten id org db user found runs =
    let clear = λ (j : ℤ). is_animal_of-clear org id j db.animals in
    rw (found, runs)
      (
        exists_row-update_where (has_key id) _ _ _ (λ r. refl)
            ∙ exists_row-eq_false _ _ (All-reject_self (has_key id) db.users),
        exists_row-eq_false _ _ (All-reject_self (has_key org) db.organizations),
        All-set_null (λ (u : User). u.organization_id) _ org _ (λ u. refl),
        All-reject_self _ db.sessions,
        All-reject _ _ _ (All-reject_self _ db.reviews),
        All-reject_same _ _ _ (λ (r : Review). clear r.animal_id),
        All-reject _ _ _ (All-reject_self _ db.adopt_requests),
        All-reject_same _ _ _ (λ (r : AdoptRequest). clear r.animal_id),
        All-reject_self _ _,
        All-reject _ _ _ (All-set_null (λ (a : Animal). a.user_id) _ id db.animals (λ a. refl)),
        All-reject_self _ db.posts,
      )

-- Deleting the account of a user who runs an organization returns; then the database names neither
-- the user nor the organization in any table, nor an animal of the organization in a review or an
-- adoption request. No stored file is deleted.
pub delete_user-IsForgotten :
    (id org : ℤ) (w : World) (user : User)
    → find id w.db.users ≡ some user
    → user.organization_id ≡ some org
    → ((delete_user id w).0 ≡ ok tt)
      × IsForgotten id org w.db (delete_user id w).1.db
      × ((delete_user id w).1.deleted_files ≡ w.deleted_files)
unfolding delete_user ◌>>=◌ throw_if or_throw
delete_user-IsForgotten id org w user found runs =
    let there : has w.db.users id ≡ true = has-find _ _ user found in
    rw (found, there) (refl, cascade-IsForgotten id org w.db user found runs, refl)
