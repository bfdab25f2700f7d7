-- ===== src/Plans/Catalog.antt =====
-- src/modules/servers/services/database-catalog.ts. A list of names is given as a list or as a text with
-- commas.
use agapornis_api.Common.{
  ℕ, String, Bool, true, not, ◌&&◌, Option, none, some, List, [], ◌∷◌, if◌then◌else◌, ◌==◌,
  string_eq, Key, nat_beq, ◌≡◌, ◌↔◌, arith, get_or, dedupe, is_nil,
}
use agapornis_api.Common.Text.{trim, to_lower, split, includes}
use agapornis_api.Registry.Types.{
  DatabaseType, mysql, mariadb, postgres, PortRangeMode, game, separate,
}

pub data Names : Type 0 where
  listed : List String → Names
  text : String → Names

unfoldable pub items : Names → List String
unfolding split
items (listed xs) = xs
items (text s) = split "," s

-- `DATABASE_CATALOG[type].image`
abbrev pub image_of : DatabaseType → String
image_of mysql = "mysql:latest"
image_of mariadb = "mariadb:latest"
image_of postgres = "postgres:latest"

unfoldable pub database_type : String → Option DatabaseType
unfolding trim to_lower
database_type value =
    let normalized = to_lower (trim value) in
    if normalized == "mysql"
    then some mysql
    else if normalized == "mariadb"
    then some mariadb
    else if normalized == "postgres"
    then some postgres
    else none

index : DatabaseType → ℕ
index mysql = 0
index mariadb = 1
index postgres = 2

same_type : DatabaseType → DatabaseType → Bool
unfolding index
same_type a b = nat_beq (index a) (index b)

same_type_iff : (a b : DatabaseType) → (same_type a b ≡ true) ↔ (a ≡ b)
unfolding same_type
same_type_iff a b = ground arith

instance pub database_type_eq : Key DatabaseType
database_type_eq = record { same = same_type; same_iff = same_type_iff }

unfoldable pub known_types : List String → List DatabaseType
unfolding database_type
known_types [] = []
known_types (x ∷ xs) = elim (database_type x) [
  | none ↦ known_types xs
  | some t ↦ t ∷ known_types xs
]

-- What the image of an older plan stands for.
unfoldable pub legacy_types : String → List DatabaseType
unfolding includes to_lower
legacy_types image =
    let legacy = to_lower image in
    if includes "postgres" legacy
    then postgres ∷ []
    else if includes "mysql" legacy && not (includes "mariadb" legacy)
    then mysql ∷ []
    else mariadb ∷ []

unfoldable pub allowed_database_types : Option Names → Option String → List DatabaseType
unfolding items known_types legacy_types dedupe same_type
allowed_database_types value image =
    let allowed = dedupe (known_types (items (get_or value (text "")))) in
    if is_nil allowed then legacy_types (get_or image "") else allowed

unfoldable pub database_port_range_mode : String → PortRangeMode
unfolding trim to_lower
database_port_range_mode value = if to_lower (trim value) == "game" then game else separate
