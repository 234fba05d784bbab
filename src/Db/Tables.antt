-- ===== src/Db/Tables.antt =====
-- The state: the tables of the schema with their id sequences, the clock of the database, and the
-- calls of `S3UploadClient::DeleteFile` in order.
use pawspective_backend.Base.{ℕ, String, List}
use pawspective_backend.Models.Records.{
  City, Breed, Organization, User, Animal, Post, Review, AdoptRequest, Session,
}
use pawspective_backend.Db.Table.{Keyed}

pub record Db : Type 0 where
  pub cities : List City
  pub breeds : List Breed
  pub organizations : List Organization
  pub users : List User
  pub animals : List Animal
  pub posts : List Post
  pub reviews : List Review
  pub adopt_requests : List AdoptRequest
  pub sessions : List Session
  -- the next id of each BIGSERIAL column
  pub next_organization : ℕ
  pub next_user : ℕ
  pub next_animal : ℕ
  pub next_post : ℕ
  pub next_review : ℕ
  pub next_adopt_request : ℕ
  pub next_session : ℕ
  -- NOW()
  pub now : ℕ

pub record World : Type 0 where
  pub db : Db
  pub deleted_files : List String

instance abbrev pub City-keyed : Keyed City
City-keyed = record { key = λ r. r.id }

instance abbrev pub Breed-keyed : Keyed Breed
Breed-keyed = record { key = λ r. r.id }

instance abbrev pub Organization-keyed : Keyed Organization
Organization-keyed = record { key = λ r. r.id }

instance abbrev pub User-keyed : Keyed User
User-keyed = record { key = λ r. r.id }

instance abbrev pub Animal-keyed : Keyed Animal
Animal-keyed = record { key = λ r. r.id }

instance abbrev pub Post-keyed : Keyed Post
Post-keyed = record { key = λ r. r.id }

instance abbrev pub Review-keyed : Keyed Review
Review-keyed = record { key = λ r. r.id }

instance abbrev pub AdoptRequest-keyed : Keyed AdoptRequest
AdoptRequest-keyed = record { key = λ r. r.id }

instance abbrev pub Session-keyed : Keyed Session
Session-keyed = record { key = λ r. r.id }
