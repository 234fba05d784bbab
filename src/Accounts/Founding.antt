-- ===== src/Accounts/Founding.antt =====
-- OrganizationService::Register.
use pawspective_backend.Base.{
  suc, ℤ, pos, ◌≡◌, refl, true, id_Eq, Option, none, some, [], ◌∷◌, ◌++◌, Option-cases, inl, inr,
}
use pawspective_backend.Errors.{Result, ok, err, city_not_found}
use pawspective_backend.Models.Records.{City, Organization, User}
use pawspective_backend.Models.Dto.{OrganizationRegisterDto, OrganizationDto}
use pawspective_backend.Db.Table.{find, has, has_key, update_where}
use pawspective_backend.Db.Tables.{Db, World, City-keyed, Organization-keyed, User-keyed}
use pawspective_backend.Db.Rows.{exists_row-append_end}
use pawspective_backend.Exec.{◌>>=◌, throw_if, or_throw}
use pawspective_backend.Services.Organizations
use pawspective_backend.Adoption.Step.{has-find}

-- The organization that is founded.
abbrev pub founded : OrganizationRegisterDto → Db → Organization
founded dto db = record {
  id = pos db.next_organization;
  name = dto.name;
  description = dto.description;
  avatar_url = dto.avatar_url;
  city_id = dto.city_id;
}

-- The database in which the user runs it.
abbrev pub founding : ℤ → OrganizationRegisterDto → Db → Db
founding user_id dto db = record db {
  next_organization = suc db.next_organization;
  organizations = db.organizations ++ founded dto db ∷ [];
  users =
      update_where (has_key user_id)
        (λ (u : User). record u { organization_id = some (pos db.next_organization) }) db.users;
}

abbrev pub register_outcome :
    ℤ → OrganizationRegisterDto → Option City → World → Result OrganizationDto × World
register_outcome user_id dto none w = (err city_not_found, w)
register_outcome user_id dto (some city) w = (
  ok (record {
    id = pos w.db.next_organization;
    name = dto.name;
    description = dto.description;
    avatar_url = dto.avatar_url;
    city = record { id = city.id; name = city.name };
  }),
  record w { db = founding user_id dto w.db },
)

-- A user without an organization who registers one in a known city gets it under the next id and
-- runs it from then on; for an unknown city the call is refused and the state stays as it is.
pub register-founding :
    (user_id : ℤ) (dto : OrganizationRegisterDto) (w : World) (user : User)
    → find user_id w.db.users ≡ some user
    → user.organization_id ≡ none
    → Organizations.register user_id dto w
      ≡ register_outcome user_id dto (find dto.city_id w.db.cities) w
unfolding Organizations.register ◌>>=◌ throw_if or_throw
register-founding user_id dto w user found free =
    elim (Option-cases (find dto.city_id w.db.cities)) [
      | inl missing ↦ rw (found, free, missing) refl
      | inr (city, placed) ↦
          let here = has-find _ _ city placed in
          let there : has (w.db.organizations ++ founded dto w.db ∷ []) (pos w.db.next_organization)
              ≡ true =
            exists_row-append_end _ w.db.organizations (founded dto w.db)
              ((id_Eq.same_iff (pos w.db.next_organization) (pos w.db.next_organization)).1 refl) in
          rw (found, free, placed, here, found, there) refl
    ]
