-- ===== src/Db/Consistent.antt =====
-- The invariant of the database: every foreign key of the schema is met.
use pawspective_backend.Base.{List}
use pawspective_backend.Models.Records.{
  City, Breed, Organization, User, Animal, Post, Review, AdoptRequest, Session,
}
use pawspective_backend.Db.Tables.{
  Db, City-keyed, Breed-keyed, Organization-keyed, User-keyed, Animal-keyed,
}
use pawspective_backend.Db.References.{Refs, OptRefs}

pub record Consistent (cities : List City) (breeds : List Breed) (organizations : List Organization)
    (users : List User) (animals : List Animal) (posts : List Post) (reviews : List Review)
    (requests : List AdoptRequest) (sessions : List Session) : Type 0 where
  pub organization_city : Refs cities (λ (o : Organization). o.city_id) organizations
  pub user_organization : OptRefs organizations (λ (u : User). u.organization_id) users
  pub animal_organization : Refs organizations (λ (a : Animal). a.organization_id) animals
  pub animal_breed : Refs breeds (λ (a : Animal). a.breed_id) animals
  pub animal_user : OptRefs users (λ (a : Animal). a.user_id) animals
  pub post_organization : Refs organizations (λ (p : Post). p.organization_id) posts
  pub review_animal : Refs animals (λ (r : Review). r.animal_id) reviews
  pub review_user : Refs users (λ (r : Review). r.user_id) reviews
  pub request_animal : Refs animals (λ (r : AdoptRequest). r.animal_id) requests
  pub request_user : Refs users (λ (r : AdoptRequest). r.user_id) requests
  pub session_user : Refs users (λ (s : Session). s.user_id) sessions

abbrev pub IsConsistent : Db → Type 0
IsConsistent db =
    Consistent db.cities db.breeds db.organizations db.users db.animals db.posts db.reviews
      db.adopt_requests db.sessions
