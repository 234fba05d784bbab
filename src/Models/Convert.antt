-- ===== src/Models/Convert.antt =====
-- The conversions of models/src between transfer objects and models. They are plain copies, so
-- they unfold everywhere.
use pawspective_backend.Base.{ℤ, pos, negsuc, String, none, [], Bool, value_or}
use pawspective_backend.Models.Enums.{
  AnimalSize, AnimalGender, CareLevel, GoodWith, AnimalColor, AnimalStatus,
}
use pawspective_backend.Models.Records.{
  City, Breed, Organization, User, Animal, Post, Review, AdoptRequest, AnimalFilters,
}
use pawspective_backend.Models.Dto.{
  CityDto, BreedDto, OrganizationDto, OrganizationRegisterDto, OrganizationUpdateDto, UserDto,
  UserRegisterDto, UserUpdateDto, AnimalDto, AnimalRegisterDto, AnimalUpdateDto, AnimalFilterDto,
  PostDto, PostCreateDto, PostUpdateDto, ReviewDto, ReviewCreateDto, AdoptRequestDto,
}

-- -1, the id of a row that the database has not numbered, and the mark of a field left as it is.
abbrev pub unset : ℤ
unset = negsuc 0

abbrev pub city_to_dto : City → CityDto
city_to_dto city = record { id = city.id; name = city.name }

abbrev pub breed_to_dto : Breed → BreedDto
breed_to_dto breed = record { id = breed.id; animal_type = breed.animal_type; name = breed.name }

abbrev pub organization_from_register_dto : OrganizationRegisterDto → Organization
organization_from_register_dto reg = record {
  id = unset;
  name = reg.name;
  description = reg.description;
  avatar_url = reg.avatar_url;
  city_id = reg.city_id;
}

abbrev pub organization_from_update_dto : ℤ → OrganizationUpdateDto → Organization
organization_from_update_dto id upd = record {
  id = id;
  name = value_or upd.name "";
  description = upd.description;
  avatar_url = upd.avatar_url;
  city_id = value_or upd.city_id unset;
}

abbrev pub organization_to_dto : Organization → CityDto → OrganizationDto
organization_to_dto model city_dto = record {
  id = model.id;
  name = model.name;
  description = model.description;
  avatar_url = model.avatar_url;
  city = city_dto;
}

abbrev pub user_from_register_dto : UserRegisterDto → User
user_from_register_dto reg = record {
  id = pos 0;
  email = reg.email;
  first_name = reg.first_name;
  last_name = reg.last_name;
  organization_id = none;
  password_hash = reg.password;
}

abbrev pub user_from_update_dto : UserUpdateDto → User
user_from_update_dto upd = record {
  id = pos 0;
  email = value_or upd.email "";
  first_name = value_or upd.first_name "";
  last_name = value_or upd.last_name "";
  organization_id = none;
  password_hash = value_or upd.password "";
}

abbrev pub animal_from_register_dto : AnimalRegisterDto → Animal
animal_from_register_dto reg = record {
  id = unset;
  organization_id = reg.organization_id;
  name = reg.name;
  photos = reg.photos;
  breed_id = reg.breed_id;
  user_id = none;
  size = reg.size;
  gender = reg.gender;
  care_level = reg.care_level;
  color = reg.color;
  good_with = reg.good_with;
  age = reg.age;
  description = reg.description;
  status = reg.status;
}

abbrev pub animal_from_update_dto : ℤ → AnimalUpdateDto → Animal
animal_from_update_dto id upd = record {
  id = id;
  organization_id = unset;
  name = value_or upd.name "";
  photos = value_or upd.photos [];
  breed_id = value_or upd.breed_id unset;
  user_id = none;
  size = value_or upd.size AnimalSize.unspecified;
  gender = value_or upd.gender AnimalGender.unspecified;
  care_level = value_or upd.care_level CareLevel.unspecified;
  color = value_or upd.color AnimalColor.unspecified;
  good_with = value_or upd.good_with GoodWith.unspecified;
  age = value_or upd.age unset;
  description = upd.description;
  status = value_or upd.status AnimalStatus.unspecified;
}

abbrev pub animal_to_dto : Animal → BreedDto → Bool → AnimalDto
animal_to_dto model breed can_be_adopted = record {
  id = model.id;
  organization_id = model.organization_id;
  name = model.name;
  photos = model.photos;
  breed = breed;
  size = model.size;
  gender = model.gender;
  care_level = model.care_level;
  color = model.color;
  good_with = model.good_with;
  age = model.age;
  description = model.description;
  status = model.status;
  can_be_adopted = can_be_adopted;
}

abbrev pub filters_from_dto : AnimalFilterDto → AnimalFilters
filters_from_dto dto = record {
  breed_ids = value_or dto.breeds [];
  city_ids = value_or dto.city_ids [];
  animal_types = value_or dto.animal_types [];
  sizes = value_or dto.sizes [];
  genders = value_or dto.genders [];
  care_levels = value_or dto.care_levels [];
  colors = value_or dto.colors [];
  good_withs = value_or dto.good_withs [];
  statuses = value_or dto.statuses [];
  min_age = value_or dto.age_gte (pos 0);
  max_age = value_or dto.age_lte (pos 100);
}

abbrev pub post_from_create_dto : ℤ → PostCreateDto → Post
post_from_create_dto organization_id create = record {
  id = pos 0;
  organization_id = organization_id;
  text = create.text;
  photos = create.photos;
  created_at = 0;
}

abbrev pub post_from_update_dto : ℤ → PostUpdateDto → Post
post_from_update_dto id upd = record {
  id = id;
  organization_id = pos 0;
  text = value_or upd.text "";
  photos = value_or upd.photos [];
  created_at = 0;
}

abbrev pub post_to_dto : Post → PostDto
post_to_dto model = record {
  id = model.id;
  organization_id = model.organization_id;
  text = model.text;
  photos = model.photos;
  created_at = model.created_at;
}

abbrev pub review_from_create_dto : ReviewCreateDto → ℤ → Review
review_from_create_dto create user_id = record {
  id = pos 0;
  animal_id = create.animal_id;
  user_id = user_id;
  text = create.text;
  created_at = 0;
}

abbrev pub review_to_dto : Review → String → Bool → ReviewDto
review_to_dto model animal_name can_edit = record {
  id = model.id;
  animal_id = model.animal_id;
  animal_name = animal_name;
  text = model.text;
  created_at = model.created_at;
  can_edit = can_edit;
}

abbrev pub adopt_request_to_dto : AdoptRequest → String → AnimalDto → AdoptRequestDto
adopt_request_to_dto model email animal = record { id = model.id; email = email; animal = animal }

unfoldable pub user_to_dto : User → UserDto
user_to_dto model = record {
  id = model.id;
  email = model.email;
  first_name = model.first_name;
  last_name = model.last_name;
  organization_id = model.organization_id;
}
