-- ===== src/Models/Records.antt =====
-- The structs of models/include, one row of a table each, and the session rows of the schema.
-- A time point is a number of seconds.
use pawspective_backend.Base.{ℕ, ℤ, String, Option, List}
use pawspective_backend.Models.Enums.{
  AnimalSize, AnimalGender, CareLevel, GoodWith, AnimalColor, AnimalStatus, AnimalType,
}

pub record City : Type 0 where
  pub id : ℤ
  pub name : String

pub record Breed : Type 0 where
  pub id : ℤ
  pub animal_type : AnimalType
  pub name : String

pub record Organization : Type 0 where
  pub id : ℤ
  pub name : String
  pub description : Option String
  pub avatar_url : Option String
  pub city_id : ℤ

pub record User : Type 0 where
  pub id : ℤ
  pub email : String
  pub first_name : String
  pub last_name : String
  pub organization_id : Option ℤ
  pub password_hash : String

pub record Animal : Type 0 where
  pub id : ℤ
  pub organization_id : ℤ
  pub name : String
  pub photos : List String
  pub breed_id : ℤ
  pub user_id : Option ℤ
  pub size : AnimalSize
  pub gender : AnimalGender
  pub care_level : CareLevel
  pub color : AnimalColor
  pub good_with : GoodWith
  pub age : ℤ
  pub description : Option String
  pub status : AnimalStatus

pub record Post : Type 0 where
  pub id : ℤ
  pub organization_id : ℤ
  pub text : String
  pub photos : List String
  pub created_at : ℕ

pub record Review : Type 0 where
  pub id : ℤ
  pub animal_id : ℤ
  pub user_id : ℤ
  pub text : String
  pub created_at : ℕ

pub record AdoptRequest : Type 0 where
  pub id : ℤ
  pub animal_id : ℤ
  pub user_id : ℤ

pub record Session : Type 0 where
  pub id : ℤ
  pub user_id : ℤ
  pub refresh_token_hash : String
  pub expires_at : ℤ

pub record AnimalFilters : Type 0 where
  pub breed_ids : List ℤ
  pub city_ids : List ℤ
  pub animal_types : List AnimalType
  pub sizes : List AnimalSize
  pub genders : List AnimalGender
  pub care_levels : List CareLevel
  pub colors : List AnimalColor
  pub good_withs : List GoodWith
  pub statuses : List AnimalStatus
  pub min_age : ℤ
  pub max_age : ℤ
