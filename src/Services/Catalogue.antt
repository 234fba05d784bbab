-- ===== src/Services/Catalogue.antt =====
-- breed_service.cpp, city_service.cpp, and the page size and file clean-up that services share.
use pawspective_backend.Base.{
  ℕ, ℤ, pos, String, Bool, not, Option, none, some, List, [], ◌∷◌, ◌++◌, map, any, ◌==◌, id_Eq,
  text_Eq, if◌then◌else◌,
}
use pawspective_backend.Errors.{breed_not_found, city_not_found}
use pawspective_backend.Models.Enums.{AnimalType}
use pawspective_backend.Models.Dto.{CityDto, BreedDto, ListDto}
use pawspective_backend.Models.Convert.{city_to_dto, breed_to_dto}
use pawspective_backend.Exec.{Exec, pure, or_throw, ◌>>=◌, ◌>>◌}
use pawspective_backend.Repositories.Paging.{total_pages}
use pawspective_backend.Repositories.Catalogue.{
  get_breed_by_id, get_breeds_by_type, get_breeds_by_ids, get_city_by_id, get_all_cities,
  get_cities_by_ids,
}

unfoldable pub get_breed : ℤ → Exec BreedDto
unfolding get_breed_by_id
get_breed id = do
  row ← get_breed_by_id id
  breed ← or_throw row breed_not_found
  pure (breed_to_dto breed)

-- The map from ids to breeds, as the list of its breeds.
unfoldable pub get_breeds : List ℤ → Exec (List BreedDto)
unfolding get_breeds_by_ids
get_breeds ids = do breeds ← get_breeds_by_ids ids; pure (map breed_to_dto breeds)

unfoldable pub get_breeds_of_type : AnimalType → Exec (List BreedDto)
unfolding get_breeds_by_type
get_breeds_of_type type = do breeds ← get_breeds_by_type type; pure (map breed_to_dto breeds)

-- `breed_dtos[id]`: a missing id gives a fresh BreedDTO.
abbrev pub breed_at : List BreedDto → ℤ → BreedDto
breed_at [] id = record { id = pos 0; animal_type = AnimalType.other; name = "" }
breed_at (b ∷ breeds) id = if b.id == id then b else breed_at breeds id

unfoldable pub get_city : ℤ → Exec CityDto
unfolding get_city_by_id
get_city id = do
  row ← get_city_by_id id
  city ← or_throw row city_not_found
  pure (city_to_dto city)

unfoldable pub get_cities : Exec (List CityDto)
unfolding get_all_cities
get_cities = do cities ← get_all_cities; pure (map city_to_dto cities)

unfoldable pub get_cities_in : List ℤ → Exec (List CityDto)
unfolding get_cities_by_ids
get_cities_in ids = do cities ← get_cities_by_ids ids; pure (map city_to_dto cities)

-- `city_dtos[id]`
abbrev pub city_at : List CityDto → ℤ → CityDto
city_at [] id = record { id = pos 0; name = "" }
city_at (c ∷ cities) id = if c.id == id then c else city_at cities id

-- kPageSize
abbrev pub page_size : ℕ
page_size = 20

abbrev pub list_dto : {Item : Type 0} → List Item → ℤ → ℕ → ListDto Item
list_dto items page total_count = record {
  items = items;
  page = page;
  limit = pos page_size;
  total_count = total_count;
  total_pages = total_pages total_count page_size;
}

-- `try { s3_.DeleteFile(url); } catch (…) { LOG_ERROR() … }`: the call is made, and its failure
-- changes nothing.
abbrev pub delete_file : String → Exec (Unit {0})
delete_file url w = pure tt (record w { deleted_files = w.deleted_files ++ url ∷ [] })

abbrev pub delete_files : List String → Exec (Unit {0})
delete_files [] = pure tt
delete_files (url ∷ urls) = delete_file url >> delete_files urls

abbrev pub contains_url : List String → String → Bool
contains_url urls url = any (λ (u : String). u == url) urls

-- The loop that deletes the photos of `existing` that are not among the new ones.
abbrev pub delete_removed : List String → List String → Exec (Unit {0})
delete_removed new_photos [] = pure tt
delete_removed new_photos (url ∷ urls) =
    (if contains_url new_photos url then pure tt else delete_file url)
    >> delete_removed new_photos urls

abbrev pub delete_replaced : Option (List String) → List String → Exec (Unit {0})
delete_replaced none existing = pure tt
delete_replaced (some new_photos) existing = delete_removed new_photos existing

-- `!user_org_id || *user_org_id != organization_id`
abbrev pub is_stranger : Option ℤ → ℤ → Bool
is_stranger none organization_id = Bool.true
is_stranger (some org) organization_id = not (org == organization_id)
