-- ===== src/Http/Forms.antt =====
-- dto/src: the bodies of requests, as `Parse` reads them from JSON and `Serialize` writes them.
pub mod RoundTrip
use pawspective_backend.Base.{ℤ, String, Option, none, some, List, if◌then◌else◌}
use pawspective_backend.Errors.{Result, ok, err, ◌>>=◌}
use pawspective_backend.Models.Dto.{
  UserDto, UserRegisterDto, UserUpdateDto, OrganizationRegisterDto, OrganizationUpdateDto,
  AnimalRegisterDto, AnimalUpdateDto, PostCreateDto, PostUpdateDto, ReviewCreateDto,
  ReviewUpdateDto,
}
use pawspective_backend.Models.EnumText.{
  parse_size, parse_gender, parse_care_level, parse_good_with, parse_color, parse_status,
}
use pawspective_backend.Tokens.Libraries.{Kind, text, integer, texts, Of, Json}

-- As<std::optional<T>> of an enumeration
abbrev pub optional : {A : Type 0} → (String → Result A) → Option String → Result (Option A)
optional parse none = ok none
optional parse (some s) = do value ← parse s; ok (some value)

abbrev pub as_some : {A : Type 0} → Result A → Result (Option A)
as_some r = do value ← r; ok (some value)

module _ (json : Json) where
  -- if (json.HasMember(name)) { field = json[name].As<T>(); }
  abbrev pub member : (k : Kind) → json.Value → String → Result (Option (Of k))
  member k v name =
      let present = as_some (json.get k v name) in
      if json.has_member v name then present else ok none

  -- if (json.HasMember(name)) { field = json[name].As<std::optional<T>>(); }
  abbrev pub optional_member : (k : Kind) → json.Value → String → Result (Option (Of k))
  optional_member k v name =
      let present = json.get_optional k v name in
      if json.has_member v name then present else ok none

  -- if (field.has_value()) { builder[name] = *field; }
  abbrev pub set_given : (k : Kind) → json.Value → String → Option (Of k) → json.Value
  set_given k v name none = v
  set_given k v name (some x) = json.set k v name x

  unfoldable pub parse_user_register : json.Value → Result UserRegisterDto
  parse_user_register v = do
    email ← json.get text v "email"
    password ← json.get text v "password"
    first_name ← json.get text v "first_name"
    last_name ← json.get text v "last_name"
    ok (record {
      email = email;
      password = password;
      first_name = first_name;
      last_name = last_name;
    })

  unfoldable pub serialize_user_register : UserRegisterDto → json.Value
  serialize_user_register dto =
      let v₁ = json.set text json.object "email" dto.email in
      let v₂ = json.set text v₁ "password" dto.password in
      let v₃ = json.set text v₂ "first_name" dto.first_name in
      json.set text v₃ "last_name" dto.last_name

  unfoldable pub parse_user_update : json.Value → Result UserUpdateDto
  parse_user_update v = do
    email ← member text v "email"
    password ← member text v "password"
    first_name ← member text v "first_name"
    last_name ← member text v "last_name"
    ok (record {
      email = email;
      password = password;
      first_name = first_name;
      last_name = last_name;
    })

  unfoldable pub serialize_user_update : UserUpdateDto → json.Value
  serialize_user_update dto =
      let v₁ = set_given text json.object "email" dto.email in
      let v₂ = set_given text v₁ "password" dto.password in
      let v₃ = set_given text v₂ "first_name" dto.first_name in
      set_given text v₃ "last_name" dto.last_name

  unfoldable pub parse_organization_register : json.Value → Result OrganizationRegisterDto
  parse_organization_register v = do
    name ← json.get text v "name"
    description ← optional_member text v "description"
    avatar_url ← optional_member text v "avatar_url"
    city_id ← json.get integer v "city_id"
    ok (record {
      name = name;
      description = description;
      avatar_url = avatar_url;
      city_id = city_id;
    })

  unfoldable pub serialize_organization_register : OrganizationRegisterDto → json.Value
  serialize_organization_register dto =
      let v₁ = json.set text json.object "name" dto.name in
      let v₂ = set_given text v₁ "description" dto.description in
      let v₃ = set_given text v₂ "avatar_url" dto.avatar_url in
      json.set integer v₃ "city_id" dto.city_id

  unfoldable pub parse_organization_update : json.Value → Result OrganizationUpdateDto
  parse_organization_update v = do
    name ← optional_member text v "name"
    description ← optional_member text v "description"
    avatar_url ← optional_member text v "avatar_url"
    city_id ← optional_member integer v "city_id"
    ok (record {
      name = name;
      description = description;
      avatar_url = avatar_url;
      city_id = city_id;
    })

  unfoldable pub serialize_organization_update : OrganizationUpdateDto → json.Value
  serialize_organization_update dto =
      let v₁ = set_given text json.object "name" dto.name in
      let v₂ = set_given text v₁ "description" dto.description in
      let v₃ = set_given text v₂ "avatar_url" dto.avatar_url in
      set_given integer v₃ "city_id" dto.city_id

  unfoldable pub parse_animal_register : json.Value → Result AnimalRegisterDto
  parse_animal_register v = do
    organization_id ← json.get integer v "organization_id"
    name ← json.get text v "name"
    breed_id ← json.get integer v "breed_id"
    photos ← json.get texts v "photos"
    size_text ← json.get text v "size"
    size ← parse_size size_text
    gender_text ← json.get text v "gender"
    gender ← parse_gender gender_text
    care_level_text ← json.get text v "care_level"
    care_level ← parse_care_level care_level_text
    color_text ← json.get text v "color"
    color ← parse_color color_text
    good_with_text ← json.get text v "good_with"
    good_with ← parse_good_with good_with_text
    age ← json.get Kind.int32 v "age"
    description ← json.get_optional text v "description"
    status_text ← json.get text v "status"
    status ← parse_status status_text
    ok (record {
      organization_id = organization_id;
      name = name;
      photos = photos;
      breed_id = breed_id;
      size = size;
      gender = gender;
      care_level = care_level;
      color = color;
      good_with = good_with;
      age = age;
      description = description;
      status = status;
    })

  unfoldable pub parse_animal_update : json.Value → Result AnimalUpdateDto
  parse_animal_update v = do
    name ← json.get_optional text v "name"
    breed_id ← json.get_optional integer v "breed_id"
    photos ← json.get_optional texts v "photos"
    size_text ← json.get_optional text v "size"
    size ← optional parse_size size_text
    gender_text ← json.get_optional text v "gender"
    gender ← optional parse_gender gender_text
    care_level_text ← json.get_optional text v "care_level"
    care_level ← optional parse_care_level care_level_text
    color_text ← json.get_optional text v "color"
    color ← optional parse_color color_text
    good_with_text ← json.get_optional text v "good_with"
    good_with ← optional parse_good_with good_with_text
    age ← json.get_optional Kind.int32 v "age"
    description ← optional_member text v "description"
    status_text ← json.get_optional text v "status"
    status ← optional parse_status status_text
    ok (record {
      name = name;
      breed_id = breed_id;
      photos = photos;
      size = size;
      gender = gender;
      care_level = care_level;
      color = color;
      good_with = good_with;
      age = age;
      description = description;
      status = status;
    })

  unfoldable pub parse_post_create : json.Value → Result PostCreateDto
  parse_post_create v = do
    text_value ← json.get text v "text"
    photos ← json.get texts v "photos"
    ok (record { text = text_value; photos = photos })

  unfoldable pub serialize_post_create : PostCreateDto → json.Value
  serialize_post_create dto =
      json.set texts (json.set text json.object "text" dto.text) "photos" dto.photos

  unfoldable pub parse_post_update : json.Value → Result PostUpdateDto
  parse_post_update v = do
    text_value ← json.get_optional text v "text"
    photos ← json.get_optional texts v "photos"
    ok (record { text = text_value; photos = photos })

  unfoldable pub parse_review_create : json.Value → Result ReviewCreateDto
  parse_review_create v = do
    animal_id ← json.get integer v "animal_id"
    text_value ← json.get text v "text"
    ok (record { animal_id = animal_id; text = text_value })

  unfoldable pub serialize_review_create : ReviewCreateDto → json.Value
  serialize_review_create dto =
      json.set text (json.set integer json.object "animal_id" dto.animal_id) "text" dto.text

  unfoldable pub parse_review_update : json.Value → Result ReviewUpdateDto
  parse_review_update v = do
    text_value ← optional_member text v "text"
    ok (record { text = text_value })

  unfoldable pub serialize_review_update : ReviewUpdateDto → json.Value
  serialize_review_update dto = set_given text json.object "text" dto.text
