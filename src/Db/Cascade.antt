-- ===== src/Db/Cascade.antt =====
-- DELETE with the referential actions of postgresql/schemas and its trigger on users.
use pawspective_backend.Base.{ℤ, Bool, false, Option, none, some, ◌==◌, id_Eq}
use pawspective_backend.Models.Records.{User, Animal, Post, Review, AdoptRequest, Session}
use pawspective_backend.Db.Table.{where_rows, reject, update_where, has, has_key, find}
use pawspective_backend.Db.Tables.{
  Db, Organization-keyed, User-keyed, Animal-keyed, Post-keyed, Review-keyed, AdoptRequest-keyed,
}

abbrev pub refers : Option ℤ → ℤ → Bool
refers none i = false
refers (some j) i = j == i

-- fk_reviews_animal and fk_adopt_requests_animal: ON DELETE CASCADE
unfoldable pub delete_animals : (Animal → Bool) → Db → Db
delete_animals p db =
    let gone = where_rows p db.animals in
    record db {
      animals = reject p db.animals;
      reviews = reject (λ (r : Review). has gone r.animal_id) db.reviews;
      adopt_requests = reject (λ (r : AdoptRequest). has gone r.animal_id) db.adopt_requests;
    }

-- fk_users_organization: ON DELETE SET NULL; fk_animals_organization, fk_posts_organization:
-- ON DELETE CASCADE
unfoldable pub delete_organization : ℤ → Db → Db
unfolding delete_animals
delete_organization id db =
    delete_animals (λ (a : Animal). a.organization_id == id)
      (record db {
        organizations = reject (has_key id) db.organizations;
        users =
            update_where (λ (u : User). refers u.organization_id id)
              (λ (u : User). record u { organization_id = none }) db.users;
        posts = reject (λ (p : Post). p.organization_id == id) db.posts;
      })

abbrev pub delete_owned : Option User → Db → Db
delete_owned none db = db
delete_owned (some u) db = elim u.organization_id [
  | none ↦ db
  | some org ↦ delete_organization org db
]

-- fk_animals_user: ON DELETE SET NULL; fk_reviews_user, fk_adopt_requests_user and
-- fk_sessions_user: ON DELETE CASCADE; then trg_after_delete_user deletes the organization of the
-- deleted user.
unfoldable pub delete_user : ℤ → Db → Db
unfolding delete_organization
delete_user id db = delete_owned (find id db.users) (record db {
  users = reject (has_key id) db.users;
  animals =
      update_where (λ (a : Animal). refers a.user_id id)
        (λ (a : Animal). record a { user_id = none }) db.animals;
  reviews = reject (λ (r : Review). r.user_id == id) db.reviews;
  adopt_requests = reject (λ (r : AdoptRequest). r.user_id == id) db.adopt_requests;
  sessions = reject (λ (s : Session). s.user_id == id) db.sessions;
})
