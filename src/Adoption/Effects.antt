-- ===== src/Adoption/Effects.antt =====
-- What an accepted request leaves behind.
use pawspective_backend.Base.{
  ℤ, ◌≡◌, refl, sym, ◌∙◌, Bool, true, false, ◌==◌, id_Eq, id_eq_iff, arith, some, List, [], ◌∷◌,
  Bool-cases, Option-cases, inl, inr, if◌then◌else◌,
}
use mathlib.Core.Path.{subst, ap}
use pawspective_backend.Errors.{
  Result, ok, err, adopt_request_not_found, animal_not_found, animal_not_available, forbidden,
}
use pawspective_backend.Models.Enums.{AnimalStatus}
use pawspective_backend.Models.Records.{Animal, AdoptRequest}
use pawspective_backend.Db.Table.{Keyed, find, first_row, update_where, exists_row, has_key}
use pawspective_backend.Db.Tables.{Db, World, User-keyed, Animal-keyed, AdoptRequest-keyed}
use pawspective_backend.Db.Rows.{All-reject_self, exists_row-eq_false, first_row_sound}
use pawspective_backend.Db.Consistent.{IsConsistent}
use pawspective_backend.Repositories.Users.{organization_of}
use pawspective_backend.Repositories.Animals.{is_available, adopted_by}
use pawspective_backend.Services.Catalogue.{is_stranger}
use pawspective_backend.Services.AdoptRequests
use pawspective_backend.Adoption.Step.{step}
use pawspective_backend.Adoption.Accept.{accepted, accept_rule, accept-eq-rule}

module _ {Row : Type 0} ⦃k : Keyed Row⦄ where
  -- Another key than the updated one finds the row it found before.
  find-update_other :
      (rows : List Row) (f : Row → Row) (i j : ℤ)
      → ((r : Row) → k.key (f r) ≡ k.key r)
      → (j == i) ≡ false
      → find j (update_where (has_key i) f rows) ≡ find j rows
  unfolding first_row update_where
  find-update_other [] f i j same ne = refl
  find-update_other (r ∷ rows) f i j same ne = elim (Bool-cases (has_key i r)) [
    | inl hit ↦
        let off : has_key j r ≡ false =
          ground (arith, id_eq_iff (k.key r) i, id_eq_iff j i, id_eq_iff (k.key r) j) in
        rw (hit, same r, off) (find-update_other rows f i j same ne)
    | inr miss ↦ rw (miss, find-update_other rows f i j same ne) refl
  ]

  -- The updated key finds the new row.
  find-update :
      (rows : List Row) (f : Row → Row) (i : ℤ) (r : Row)
      → ((r : Row) → k.key (f r) ≡ k.key r)
      → find i rows ≡ some r
      → find i (update_where (has_key i) f rows) ≡ some (f r)
  unfolding first_row update_where
  find-update [] f i r same e = cc
  find-update (x ∷ rows) f i r same e = elim (Bool-cases (has_key i x)) [
    | inl hit ↦ let here : some x ≡ some r = rw hit at e in rw (hit, same x, hit) cc
    | inr miss ↦ rw (miss, miss) (find-update rows f i r same (rw miss at e))
  ]

-- The animal of the request has its new owner, the other animals are as before, and no request
-- for the animal is left.
abbrev pub IsAdopted : AdoptRequest → Animal → Db → Db → Type 0
IsAdopted request animal db db' =
    ((j : ℤ)
      → find j db'.animals ≡ (
          if j == request.animal_id
          then some
              (record animal { user_id = some request.user_id; status = AnimalStatus.adopted })
          else find j db.animals))
    × (exists_row (λ (r : AdoptRequest). r.animal_id == request.animal_id) db'.adopt_requests
        ≡ false)

accepted-IsAdopted :
    (request : AdoptRequest) (animal : Animal) (db : Db)
    → find request.animal_id db.animals ≡ some animal
    → IsAdopted request animal db (accepted request animal db)
accepted-IsAdopted request animal db found =
    let i = request.animal_id in
    let e : animal.id ≡ i =
      (id_eq_iff _ _).0 (first_row_sound (has_key i) db.animals animal found) in
    let updated : ℤ → List Animal =
      λ key. update_where (has_key key) (adopted_by request.user_id) db.animals in
    let seen : (j : ℤ)
        → find j (updated i)
          ≡ (if j == i then some (adopted_by request.user_id animal) else find j db.animals) =
      λ j. elim (Bool-cases (j == i)) [
        | inl same ↦
            rw (same, (id_eq_iff j i).0 same)
              (find-update db.animals (adopted_by request.user_id) i animal (λ r. refl) found)
        | inr other ↦ rw other (find-update_other db.animals _ i j (λ r. refl) other)
      ] in
    (
      subst
          (λ key.
            (j : ℤ)
            → find j (updated key)
              ≡ (if j == i then some (adopted_by request.user_id animal) else find j db.animals))
          (sym e) seen,
      exists_row-eq_false _ _ (All-reject_self _ db.adopt_requests),
    )

guards_passed :
    (stranger free : Bool) (db db' : Db)
    → (if stranger then err forbidden else if free then ok db else err animal_not_available)
      ≡ ok db'
    → (stranger ≡ false) × (free ≡ true) × (db ≡ db')
guards_passed true free db db' e = cc
guards_passed false true db db' e = (refl, refl, cc)
guards_passed false false db db' e = cc

step_ok :
    (w : World) (r : Result Db)
    → (step w r).0 ≡ ok tt
    → (db : Db) × (r ≡ ok db) × ((step w r).1.db ≡ db)
step_ok w (ok db) e = (db, refl, refl)
step_ok w (err x) e = cc

-- The only way for the rule to let a request pass.
rule_ok :
    (org_user_id request_id : ℤ) (db db' : Db)
    → accept_rule org_user_id request_id db ≡ ok db'
    → (request : AdoptRequest) × (animal : Animal) × (find request_id db.adopt_requests
        ≡ some request)
      × (find request.animal_id db.animals ≡ some animal)
      × (is_available animal.status ≡ true)
      × (is_stranger (organization_of (find org_user_id db.users)) animal.organization_id ≡ false)
      × (accepted request animal db ≡ db')
rule_ok org_user_id request_id db db' e = elim (Option-cases (find request_id db.adopt_requests)) [
  | inl missing ↦ let wrong : err adopt_request_not_found ≡ ok db' = rw missing at e in cc
  | inr (request, found) ↦ elim (Option-cases (find request.animal_id db.animals)) [
    | inl missing ↦ let wrong : err animal_not_found ≡ ok db' = rw (found, missing) at e in cc
    | inr (animal, at_home) ↦
        let passed : (if is_stranger (organization_of (find org_user_id db.users))
                animal.organization_id
              then err forbidden
              else if is_available animal.status
              then ok (accepted request animal db)
              else err animal_not_available)
            ≡ ok db' =
          rw (found, at_home) at e in
        let (own, free, same) =
          guards_passed _ (is_available animal.status) (accepted request animal db) db' passed in
        (request, animal, found, at_home, free, own, same)
  ]
]

-- With every foreign key met, when a request is accepted, it was there, its animal was available
-- and belongs to the accepting user's organization. Afterwards the animal is found with the user
-- of the request and the status `adopted`, every other animal is found as before, and there is
-- no request for the animal any more.
pub accept-IsAdopted :
    (org_user_id request_id : ℤ) (w : World)
    → IsConsistent w.db
    → (AdoptRequests.accept org_user_id request_id w).0 ≡ ok tt
    → (request : AdoptRequest) × (animal : Animal) × (find request_id w.db.adopt_requests
        ≡ some request)
      × (find request.animal_id w.db.animals ≡ some animal)
      × (is_available animal.status ≡ true)
      × (is_stranger (organization_of (find org_user_id w.db.users)) animal.organization_id ≡ false)
      × IsAdopted request animal w.db (AdoptRequests.accept org_user_id request_id w).1.db
accept-IsAdopted org_user_id request_id w h e =
    let rule = accept-eq-rule org_user_id request_id w h in
    let returned : (step w (accept_rule org_user_id request_id w.db)).0 ≡ ok tt = rw rule at e in
    let (db', passes, left) = step_ok w _ returned in
    let (request, animal, found, at_home, free, own, same) =
      rule_ok org_user_id request_id w.db db' passes in
    let after : (AdoptRequests.accept org_user_id request_id w).1.db
        ≡ accepted request animal w.db =
      ap (λ (r : Result (Unit {0}) × World). r.1.db) rule ∙ (left ∙ sym same) in
    (
      request,
      animal,
      found,
      at_home,
      free,
      own,
      subst (IsAdopted request animal w.db) (sym after)
          (accepted-IsAdopted request animal w.db at_home),
    )
