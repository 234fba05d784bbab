-- ===== src/Repositories/Catalogue.antt =====
-- breed_repository.cpp and city_repository.cpp: the tables that the program only reads.
use pawspective_backend.Base.{
  ℤ, String, text_Eq, Bool, false, List, Option, any, ◌==◌, id_Eq, if◌then◌else◌, is_empty, [],
}
use pawspective_backend.Models.Records.{City, Breed}
use pawspective_backend.Db.Table.{find, where_rows}
use pawspective_backend.Db.Tables.{City-keyed, Breed-keyed}
use pawspective_backend.Errors.{Result, ok, err}
use pawspective_backend.Models.Enums.{AnimalType, enum_to_literal, animal_type}
use pawspective_backend.Exec.{Exec, reads, lift, ◌>>=◌}

-- id = ANY(ids)
abbrev pub among : List ℤ → ℤ → Bool
among ids id = any (λ (i : ℤ). id == i) ids

unfoldable pub get_breed_by_id : ℤ → Exec (Option Breed)
get_breed_by_id id = reads (λ db. find id db.breeds)

-- animal_type = literal
abbrev pub has_literal : String → Result String → Bool
has_literal literal (ok text) = text == literal
has_literal literal (err e) = false

abbrev pub is_of_type : String → Breed → Bool
is_of_type literal b = has_literal literal (enum_to_literal animal_type b.animal_type)

unfoldable pub get_breeds_by_type : AnimalType → Exec (List Breed)
get_breeds_by_type type = do
  literal ← lift (enum_to_literal animal_type type)
  reads (λ db. where_rows (is_of_type literal) db.breeds)

unfoldable pub get_breeds_by_ids : List ℤ → Exec (List Breed)
get_breeds_by_ids ids =
    reads (λ db. if is_empty ids then [] else where_rows (λ (b : Breed). among ids b.id) db.breeds)

unfoldable pub get_city_by_id : ℤ → Exec (Option City)
get_city_by_id id = reads (λ db. find id db.cities)

unfoldable pub get_all_cities : Exec (List City)
get_all_cities = reads (λ db. db.cities)

unfoldable pub get_cities_by_ids : List ℤ → Exec (List City)
get_cities_by_ids ids =
    reads (λ db. if is_empty ids then [] else where_rows (λ (c : City). among ids c.id) db.cities)
