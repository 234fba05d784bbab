-- ===== src/Samples.antt =====
-- A small database and a password hash for the examples.
pub mod Libraries
use pawspective_backend.Base.{
  ℕ, pos, String, ◌≡◌, refl, ◌==◌, text_Eq, true, false, Bool-cases, inl, inr, Option, none, some,
  [], ◌∷◌, if◌then◌else◌,
}
use pawspective_backend.Models.Enums.{
  AnimalSize, AnimalGender, CareLevel, GoodWith, AnimalColor, AnimalStatus, AnimalType,
}
use pawspective_backend.Models.Records.{Organization, User, Animal, Post, Review, AdoptRequest}
use pawspective_backend.Models.Dto.{UserRegisterDto}
use pawspective_backend.Db.Table.{exists_row}
use pawspective_backend.Db.Tables.{World}
use pawspective_backend.Db.Consistent.{IsConsistent}
use pawspective_backend.Services.Users.{Argon2, Verdict, argon2_ok, argon2_verify_mismatch}

abbrev pub owner : User
owner = record {
  id = pos 1;
  email = "owner@example.org";
  first_name = "Olga";
  last_name = "Orlova";
  organization_id = some (pos 1);
  password_hash = "secret";
}

abbrev pub visitor : User
visitor = record {
  id = pos 2;
  email = "visitor@example.org";
  first_name = "Viktor";
  last_name = "Volkov";
  organization_id = none;
  password_hash = "hidden";
}

abbrev pub shelter : Organization
shelter = record {
  id = pos 1;
  name = "Paws";
  description = none;
  avatar_url = none;
  city_id = pos 1;
}

abbrev pub rex : Animal
rex = record {
  id = pos 1;
  organization_id = pos 1;
  name = "Rex";
  photos = "a.png" ∷ [];
  breed_id = pos 1;
  user_id = none;
  size = AnimalSize.small;
  gender = AnimalGender.male;
  care_level = CareLevel.easy;
  color = AnimalColor.black;
  good_with = GoodWith.dogs;
  age = pos 3;
  description = none;
  status = AnimalStatus.available;
}

abbrev pub news : Post
news = record {
  id = pos 1;
  organization_id = pos 1;
  text = "News";
  photos = "p.png" ∷ "q.png" ∷ [];
  created_at = 5;
}

abbrev pub praise : Review
praise = record { id = pos 1; animal_id = pos 1; user_id = pos 2; text = "Good"; created_at = 6 }

abbrev pub wish : AdoptRequest
wish = record { id = pos 1; animal_id = pos 1; user_id = pos 2 }

abbrev pub sample : World
sample = record {
  db = record {
    cities = record { id = pos 1; name = "Omsk" } ∷ [];
    breeds = record { id = pos 1; animal_type = AnimalType.dog; name = "Collie" } ∷ [];
    organizations = shelter ∷ [];
    users = owner ∷ visitor ∷ [];
    animals = rex ∷ [];
    posts = news ∷ [];
    reviews = praise ∷ [];
    adopt_requests = wish ∷ [];
    sessions = [];
    next_organization = 2;
    next_user = 3;
    next_animal = 2;
    next_post = 2;
    next_review = 2;
    next_adopt_request = 2;
    next_session = 1;
    now = 10;
  };
  deleted_files = [];
}

pub sample-IsConsistent : IsConsistent sample.db
unfolding exists_row
sample-IsConsistent = record {
  organization_city = (refl, tt);
  user_organization = (refl, (refl, tt));
  animal_organization = (refl, tt);
  animal_breed = (refl, tt);
  animal_user = (refl, tt);
  post_organization = (refl, tt);
  review_animal = (refl, tt);
  review_user = (refl, tt);
  request_animal = (refl, tt);
  request_user = (refl, tt);
  session_user = tt;
}

-- A hash that keeps the password, for passwords that are not empty.
abbrev plain_hash : ℕ → String → Option String
plain_hash salt password = if password == "" then none else some password

abbrev plain_verify : String → String → Verdict
plain_verify hashed password = if hashed == password then argon2_ok else argon2_verify_mismatch

pub plain_verify-hash :
    (salt : ℕ) (password hashed : String)
    → plain_hash salt password ≡ some hashed
    → (plain_verify hashed password ≡ argon2_ok) × ((hashed == "") ≡ false)
plain_verify-hash salt password hashed h = elim (Bool-cases (password == "")) [
  | inl empty ↦ let wrong : none ≡ some hashed = rw empty at h in cc
  | inr filled ↦
      let kept : some password ≡ some hashed = rw filled at h in
      let same : hashed ≡ password = cc in
      let equal : (password == password) ≡ true = (text_Eq.same_iff password password).1 refl in
      rw same (rw equal refl, filled)
]

abbrev pub plain : Argon2
plain = record { hash = plain_hash; verify = plain_verify; verify-hash = plain_verify-hash }

abbrev pub newcomer : UserRegisterDto
newcomer = record {
  email = "new@example.org";
  password = "pass";
  first_name = "Nina";
  last_name = "Nova";
}
