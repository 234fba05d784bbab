-- ===== src/Http/Forms/RoundTrip.antt =====
-- What `Serialize` writes of a form, `Parse` reads.
use pawspective_backend.Base.{
  String, ◌≡◌, ◌≢◌, refl, ◌∙◌, true, false, Option, none, some, ◌==◌, text_Eq,
}
use pawspective_backend.Errors.{ok}
use pawspective_backend.Models.Dto.{
  UserRegisterDto, UserUpdateDto, OrganizationRegisterDto, OrganizationUpdateDto, PostCreateDto,
  ReviewCreateDto, ReviewUpdateDto,
}
use pawspective_backend.Tokens.Libraries.{Kind, text, integer, texts, Of, Json}
use pawspective_backend.Http.Forms.{
  member, optional_member, set_given, parse_user_register, serialize_user_register,
  parse_user_update, serialize_user_update, parse_organization_register,
  serialize_organization_register, parse_organization_update, serialize_organization_update,
  parse_post_create, serialize_post_create, parse_review_create, serialize_review_create,
  parse_review_update, serialize_review_update,
}

ne_of_eq : (s t : String) → (s == t) ≡ false → s ≢ t
ne_of_eq s t h e = let same : (s == t) ≡ true = (text_Eq.same_iff s t).1 e in cc

module _ (json : Json) where
  -- A member is not touched by the assignment of another one.
  skip :
      (k j : Kind) (v : json.Value) (name other : String) (x : Of j)
      → (name == other) ≡ false
      → json.get k (json.set j v other x) name ≡ json.get k v name
  skip k j v name other x e = json.get-set_other k j v name other x (ne_of_eq name other e)

  skip_given :
      (k j : Kind) (v : json.Value) (name other : String) (x : Option (Of j))
      → (name == other) ≡ false
      → json.get k (set_given json j v other x) name ≡ json.get k v name
  skip_given k j v name other none e = refl
  skip_given k j v name other (some x) e = skip k j v name other x e

  has-other :
      (j : Kind) (v : json.Value) (name other : String) (x : Of j)
      → (name == other) ≡ false
      → json.has_member (json.set j v other x) name ≡ json.has_member v name
  has-other j v name other x e = json.has_member-set_other j v name other x (ne_of_eq name other e)

  has-given :
      (j : Kind) (v : json.Value) (name other : String) (x : Option (Of j))
      → (name == other) ≡ false
      → json.has_member (set_given json j v other x) name ≡ json.has_member v name
  has-given j v name other none e = refl
  has-given j v name other (some x) e = has-other j v name other x e

  member-given :
      (k : Kind) (v : json.Value) (name : String) (x : Option (Of k))
      → json.has_member v name ≡ false
      → member json k (set_given json k v name x) name ≡ ok x
  member-given k v name none h = rw h refl
  member-given k v name (some x) h =
      rw (json.has_member-set k v name x, json.get-set k v name x) refl

  member-skip :
      (k j : Kind) (v : json.Value) (name other : String) (x : Option (Of j))
      → (name == other) ≡ false
      → member json k (set_given json j v other x) name ≡ member json k v name
  member-skip k j v name other x e =
      rw (has-given j v name other x e, skip_given k j v name other x e) refl

  optional_member-given :
      (k : Kind) (v : json.Value) (name : String) (x : Option (Of k))
      → json.has_member v name ≡ false
      → optional_member json k (set_given json k v name x) name ≡ ok x
  optional_member-given k v name none h = rw h refl
  optional_member-given k v name (some x) h =
      rw (json.has_member-set k v name x, json.get_optional-set k v name x) refl

  optional_member-set :
      (k j : Kind) (v : json.Value) (name other : String) (x : Of j)
      → (name == other) ≡ false
      → optional_member json k (json.set j v other x) name ≡ optional_member json k v name
  optional_member-set k j v name other x e =
      rw
        (
          has-other j v name other x e,
          json.get_optional-set_other k j v name other x (ne_of_eq name other e),
        )
        refl

  optional_member-skip :
      (k j : Kind) (v : json.Value) (name other : String) (x : Option (Of j))
      → (name == other) ≡ false
      → optional_member json k (set_given json j v other x) name ≡ optional_member json k v name
  optional_member-skip k j v name other none e = refl
  optional_member-skip k j v name other (some x) e = optional_member-set k j v name other x e

  register-parse-serialize :
      (dto : UserRegisterDto) → parse_user_register json (serialize_user_register json dto) ≡ ok dto
  unfolding parse_user_register serialize_user_register
  register-parse-serialize dto =
      let v₁ = json.set text json.object "email" dto.email in
      let v₂ = json.set text v₁ "password" dto.password in
      let v₃ = json.set text v₂ "first_name" dto.first_name in
      let first_name =
        skip text text v₃ "first_name" "last_name" dto.last_name refl
        ∙ json.get-set text v₂ "first_name" dto.first_name in
      let password =
        skip text text v₃ "password" "last_name" dto.last_name refl
        ∙ skip text text v₂ "password" "first_name" dto.first_name refl
        ∙ json.get-set text v₁ "password" dto.password in
      let email =
        skip text text v₃ "email" "last_name" dto.last_name refl
        ∙ skip text text v₂ "email" "first_name" dto.first_name refl
        ∙ skip text text v₁ "email" "password" dto.password refl
        ∙ json.get-set text json.object "email" dto.email in
      rw (email, password, first_name, json.get-set text v₃ "last_name" dto.last_name) refl

  update-parse-serialize :
      (dto : UserUpdateDto) → parse_user_update json (serialize_user_update json dto) ≡ ok dto
  unfolding parse_user_update serialize_user_update
  update-parse-serialize dto =
      let v₁ = set_given json text json.object "email" dto.email in
      let v₂ = set_given json text v₁ "password" dto.password in
      let v₃ = set_given json text v₂ "first_name" dto.first_name in
      let email =
        member-skip text text v₃ "email" "last_name" dto.last_name refl
        ∙ member-skip text text v₂ "email" "first_name" dto.first_name refl
        ∙ member-skip text text v₁ "email" "password" dto.password refl
        ∙ member-given text json.object "email" dto.email (json.has_member-object "email") in
      let password =
        member-skip text text v₃ "password" "last_name" dto.last_name refl
        ∙ member-skip text text v₂ "password" "first_name" dto.first_name refl
        ∙ member-given text v₁ "password" dto.password (
            has-given text json.object "password" "email" dto.email refl
            ∙ json.has_member-object "password") in
      let first_name =
        member-skip text text v₃ "first_name" "last_name" dto.last_name refl
        ∙ member-given text v₂ "first_name" dto.first_name (
            has-given text v₁ "first_name" "password" dto.password refl
            ∙ has-given text json.object "first_name" "email" dto.email refl
            ∙ json.has_member-object "first_name") in
      let last_name = member-given text v₃ "last_name" dto.last_name (
        has-given text v₂ "last_name" "first_name" dto.first_name refl
        ∙ has-given text v₁ "last_name" "password" dto.password refl
        ∙ has-given text json.object "last_name" "email" dto.email refl
        ∙ json.has_member-object "last_name") in
      rw (email, password, first_name, last_name) refl

  founding-parse-serialize :
      (dto : OrganizationRegisterDto)
      → parse_organization_register json (serialize_organization_register json dto) ≡ ok dto
  unfolding parse_organization_register serialize_organization_register
  founding-parse-serialize dto =
      let v₁ = json.set text json.object "name" dto.name in
      let v₂ = set_given json text v₁ "description" dto.description in
      let v₃ = set_given json text v₂ "avatar_url" dto.avatar_url in
      let name =
        skip text integer v₃ "name" "city_id" dto.city_id refl
        ∙ skip_given text text v₂ "name" "avatar_url" dto.avatar_url refl
        ∙ skip_given text text v₁ "name" "description" dto.description refl
        ∙ json.get-set text json.object "name" dto.name in
      let description =
        optional_member-set text integer v₃ "description" "city_id" dto.city_id refl
        ∙ optional_member-skip text text v₂ "description" "avatar_url" dto.avatar_url refl
        ∙ optional_member-given text v₁ "description" dto.description (
            has-other text json.object "description" "name" dto.name refl
            ∙ json.has_member-object "description") in
      let avatar_url =
        optional_member-set text integer v₃ "avatar_url" "city_id" dto.city_id refl
        ∙ optional_member-given text v₂ "avatar_url" dto.avatar_url (
            has-given text v₁ "avatar_url" "description" dto.description refl
            ∙ has-other text json.object "avatar_url" "name" dto.name refl
            ∙ json.has_member-object "avatar_url") in
      rw (name, description, avatar_url, json.get-set integer v₃ "city_id" dto.city_id) refl

  change-parse-serialize :
      (dto : OrganizationUpdateDto)
      → parse_organization_update json (serialize_organization_update json dto) ≡ ok dto
  unfolding parse_organization_update serialize_organization_update
  change-parse-serialize dto =
      let v₁ = set_given json text json.object "name" dto.name in
      let v₂ = set_given json text v₁ "description" dto.description in
      let v₃ = set_given json text v₂ "avatar_url" dto.avatar_url in
      let name =
        optional_member-skip text integer v₃ "name" "city_id" dto.city_id refl
        ∙ optional_member-skip text text v₂ "name" "avatar_url" dto.avatar_url refl
        ∙ optional_member-skip text text v₁ "name" "description" dto.description refl
        ∙ optional_member-given text json.object "name" dto.name (json.has_member-object "name") in
      let description =
        optional_member-skip text integer v₃ "description" "city_id" dto.city_id refl
        ∙ optional_member-skip text text v₂ "description" "avatar_url" dto.avatar_url refl
        ∙ optional_member-given text v₁ "description" dto.description (
            has-given text json.object "description" "name" dto.name refl
            ∙ json.has_member-object "description") in
      let avatar_url =
        optional_member-skip text integer v₃ "avatar_url" "city_id" dto.city_id refl
        ∙ optional_member-given text v₂ "avatar_url" dto.avatar_url (
            has-given text v₁ "avatar_url" "description" dto.description refl
            ∙ has-given text json.object "avatar_url" "name" dto.name refl
            ∙ json.has_member-object "avatar_url") in
      let city_id = optional_member-given integer v₃ "city_id" dto.city_id (
        has-given text v₂ "city_id" "avatar_url" dto.avatar_url refl
        ∙ has-given text v₁ "city_id" "description" dto.description refl
        ∙ has-given text json.object "city_id" "name" dto.name refl
        ∙ json.has_member-object "city_id") in
      rw (name, description, avatar_url, city_id) refl

  post-parse-serialize :
      (dto : PostCreateDto) → parse_post_create json (serialize_post_create json dto) ≡ ok dto
  unfolding parse_post_create serialize_post_create
  post-parse-serialize dto =
      let v₁ = json.set text json.object "text" dto.text in
      rw
        (
          skip text texts v₁ "text" "photos" dto.photos refl
              ∙ json.get-set text json.object "text" dto.text,
          json.get-set texts v₁ "photos" dto.photos,
        )
        refl

  review-parse-serialize :
      (dto : ReviewCreateDto) → parse_review_create json (serialize_review_create json dto) ≡ ok dto
  unfolding parse_review_create serialize_review_create
  review-parse-serialize dto =
      let v₁ = json.set integer json.object "animal_id" dto.animal_id in
      rw
        (
          skip integer text v₁ "animal_id" "text" dto.text refl
              ∙ json.get-set integer json.object "animal_id" dto.animal_id,
          json.get-set text v₁ "text" dto.text,
        )
        refl

  correction-parse-serialize :
      (dto : ReviewUpdateDto) → parse_review_update json (serialize_review_update json dto) ≡ ok dto
  unfolding parse_review_update serialize_review_update
  correction-parse-serialize dto =
      rw (optional_member-given text json.object "text" dto.text (json.has_member-object "text"))
        refl

  -- Reading the JSON that is written of a form gives the form back: for the registration and the
  -- update of a user and of an organization, for a new post, and for a new and a changed review,
  -- with every combination of fields that are left out.
  pub forms-parse-serialize :
      ((dto : UserRegisterDto)
        → parse_user_register json (serialize_user_register json dto) ≡ ok dto)
      × ((dto : UserUpdateDto) → parse_user_update json (serialize_user_update json dto) ≡ ok dto)
      × ((dto : OrganizationRegisterDto)
          → parse_organization_register json (serialize_organization_register json dto) ≡ ok dto)
      × ((dto : OrganizationUpdateDto)
          → parse_organization_update json (serialize_organization_update json dto) ≡ ok dto)
      × ((dto : PostCreateDto) → parse_post_create json (serialize_post_create json dto) ≡ ok dto)
      × ((dto : ReviewCreateDto)
          → parse_review_create json (serialize_review_create json dto) ≡ ok dto)
      × ((dto : ReviewUpdateDto)
          → parse_review_update json (serialize_review_update json dto) ≡ ok dto)
  forms-parse-serialize = (
    register-parse-serialize, update-parse-serialize, founding-parse-serialize,
    change-parse-serialize, post-parse-serialize, review-parse-serialize,
    correction-parse-serialize,
  )
