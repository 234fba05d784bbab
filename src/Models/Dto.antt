-- ===== src/Models/Dto.antt =====
-- The transfer objects of dto/include that the services take and return.
use pawspective_backend.Base.{ℕ, ℤ, String, Option, List, Bool}
use pawspective_backend.Models.Enums.{
  AnimalSize, AnimalGender, CareLevel, GoodWith, AnimalColor, AnimalStatus, AnimalType,
}

pub record CityDto : Type 0 where
  pub id : ℤ
  pub name : String

pub record BreedDto : Type 0 where
  pub id : ℤ
  pub animal_type : AnimalType
  pub name : String

pub record OrganizationDto : Type 0 where
  pub id : ℤ
  pub name : String
  pub description : Option String
  pub avatar_url : Option String
  pub city : CityDto

pub record OrganizationRegisterDto : Type 0 where
  pub name : String
  pub description : Option String
  pub avatar_url : Option String
  pub city_id : ℤ

pub record OrganizationUpdateDto : Type 0 where
  pub name : Option String
  pub description : Option String
  pub avatar_url : Option String
  pub city_id : Option ℤ

pub record UserDto : Type 0 where
  pub id : ℤ
  pub email : String
  pub first_name : String
  pub last_name : String
  pub organization_id : Option ℤ

pub record UserRegisterDto : Type 0 where
  pub email : String
  pub password : String
  pub first_name : String
  pub last_name : String

pub record UserUpdateDto : Type 0 where
  pub email : Option String
  pub password : Option String
  pub first_name : Option String
  pub last_name : Option String

pub record AnimalDto : Type 0 where
  pub id : ℤ
  pub organization_id : ℤ
  pub name : String
  pub photos : List String
  pub breed : BreedDto
  pub size : AnimalSize
  pub gender : AnimalGender
  pub care_level : CareLevel
  pub color : AnimalColor
  pub good_with : GoodWith
  pub age : ℤ
  pub description : Option String
  pub status : AnimalStatus
  pub can_be_adopted : Bool

pub record AnimalRegisterDto : Type 0 where
  pub organization_id : ℤ
  pub name : String
  pub photos : List String
  pub breed_id : ℤ
  pub size : AnimalSize
  pub gender : AnimalGender
  pub care_level : CareLevel
  pub color : AnimalColor
  pub good_with : GoodWith
  pub age : ℤ
  pub description : Option String
  pub status : AnimalStatus

pub record AnimalUpdateDto : Type 0 where
  pub name : Option String
  pub breed_id : Option ℤ
  pub photos : Option (List String)
  pub size : Option AnimalSize
  pub gender : Option AnimalGender
  pub care_level : Option CareLevel
  pub color : Option AnimalColor
  pub good_with : Option GoodWith
  pub age : Option ℤ
  pub description : Option String
  pub status : Option AnimalStatus

pub record AnimalFilterDto : Type 0 where
  pub breeds : Option (List ℤ)
  pub city_ids : Option (List ℤ)
  pub animal_types : Option (List AnimalType)
  pub sizes : Option (List AnimalSize)
  pub genders : Option (List AnimalGender)
  pub care_levels : Option (List CareLevel)
  pub colors : Option (List AnimalColor)
  pub good_withs : Option (List GoodWith)
  pub statuses : Option (List AnimalStatus)
  pub age_lte : Option ℤ
  pub age_gte : Option ℤ

pub record PostDto : Type 0 where
  pub id : ℤ
  pub organization_id : ℤ
  pub text : String
  pub photos : List String
  pub created_at : ℕ

pub record PostCreateDto : Type 0 where
  pub text : String
  pub photos : List String

pub record PostUpdateDto : Type 0 where
  pub text : Option String
  pub photos : Option (List String)

pub record ReviewDto : Type 0 where
  pub id : ℤ
  pub animal_id : ℤ
  pub animal_name : String
  pub text : String
  pub created_at : ℕ
  pub can_edit : Bool

pub record ReviewCreateDto : Type 0 where
  pub animal_id : ℤ
  pub text : String

pub record ReviewUpdateDto : Type 0 where
  pub text : Option String

pub record AdoptRequestDto : Type 0 where
  pub id : ℤ
  pub email : String
  pub animal : AnimalDto

-- AnimalListDTO, PostListDTO, ReviewListDTO, OrganizationListDTO and AdoptRequestListDTO.
pub record ListDto (Item : Type 0) : Type 0 where
  pub items : List Item
  pub page : ℤ
  pub limit : ℤ
  pub total_count : ℕ
  pub total_pages : ℕ
