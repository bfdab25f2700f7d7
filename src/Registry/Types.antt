-- ===== src/Registry/Types.antt =====
-- src/modules/servers/services/server-registry.types.ts and server-status.ts.
-- Optional fields are `Option`; byte counts, percentages and ports are whole numbers. A record's
-- `assignedPorts`, `queryPortOptions` and `access` are made for a client's view and are not stored.
use agapornis_api.Common.{
  ℕ, String, Bool, true, false, Option, none, some, List, [], ◌∷◌, ◌≡◌, ◌↔◌, arith, Key, ◌==◌,
  string_eq, if◌then◌else◌, nat_beq,
}
use agapornis_api.Common.Text.{trim, to_lower, is_empty}

-- `UserRole` of src/modules/users/users.service.ts.
pub data Role : Type 0 where
  owner admin support user : Role

pub record User : Type 0 where
  pub id : String
  pub role : Role

pub data Scope : Type 0 where
  console_view console_send files_view files_write power settings databases webhooks : Scope
  backups schedules : Scope

abbrev pub scope_name : Scope → String
scope_name console_view = "console.view"
scope_name console_send = "console.send"
scope_name files_view = "files.view"
scope_name files_write = "files.write"
scope_name power = "power"
scope_name settings = "settings"
scope_name databases = "databases"
scope_name webhooks = "webhooks"
scope_name backups = "backups"
scope_name schedules = "schedules"

-- `SERVER_PERMISSION_SCOPES`
abbrev pub all_scopes : List Scope
all_scopes =
    console_view ∷ console_send ∷ files_view ∷ files_write ∷ power ∷ settings ∷ databases ∷ webhooks
    ∷ backups ∷ schedules ∷ []

index : Scope → ℕ
index console_view = 0
index console_send = 1
index files_view = 2
index files_write = 3
index power = 4
index settings = 5
index databases = 6
index webhooks = 7
index backups = 8
index schedules = 9

unfoldable pub scope_beq : Scope → Scope → Bool
unfolding index
scope_beq a b = nat_beq (index a) (index b)

pub scope_beq_iff : (a b : Scope) → (scope_beq a b ≡ true) ↔ (a ≡ b)
unfolding scope_beq
scope_beq_iff a b = ground arith

instance abbrev pub scope_eq : Key Scope
scope_eq = record { same = scope_beq; same_iff = scope_beq_iff }

pub data Permission : Type 0 where
  read_only operator custom : Permission

pub record Collaborator : Type 0 where
  pub user_id : String
  pub permission : Permission
  pub permissions : List Scope

pub data DatabaseType : Type 0 where
  mysql mariadb postgres : DatabaseType

pub data PortRangeMode : Type 0 where
  game separate : PortRangeMode

abbrev pub Variables : Type 0
Variables = List (String × String)

pub record ServerRecord : Type 0 where
  pub id : String
  pub node_id : String
  pub name : String
  pub egg_id : Option String
  pub egg_change_allowed : Option Bool
  pub allowed_egg_ids : Option (List String)
  pub owner_user_id : Option String
  pub assigned_host_port : Option ℕ
  pub status : String
  pub memory_bytes : Option ℕ
  pub cpu_limit_percentage : Option ℕ
  pub cpu_cores : Option ℕ
  pub disk_limit_bytes : Option ℕ
  pub databases_enabled : Option Bool
  pub database_limit : Option ℕ
  pub database_memory_bytes : Option ℕ
  pub database_disk_limit_bytes : Option ℕ
  pub database_cpu_limit_percentage : Option ℕ
  pub database_cpu_cores : Option ℕ
  pub database_docker_image : Option String
  pub allowed_database_types : Option (List DatabaseType)
  pub database_port_range_mode : Option PortRangeMode
  pub database_port_range_start : Option ℕ
  pub database_port_range_end : Option ℕ
  pub backup_limit : Option ℕ
  pub variables : Option Variables
  pub collaborator_user_ids : Option (List String)
  pub collaborators : Option (List Collaborator)
  pub created_at : String

pub data Relationship : Type 0 where
  owner collaborator staff : Relationship

pub data AccessPermission : Type 0 where
  owner staff : AccessPermission
  granted : Permission → AccessPermission

-- `ServerAccess`
pub record Access : Type 0 where
  pub relationship : Relationship
  pub permission : AccessPermission
  pub can_write : Bool
  pub can_manage_access : Bool
  pub permissions : List Scope

-- `normalizeServerStatus`; an empty status reads as missing.
unfoldable pub normalize_status : String → String
unfolding trim to_lower
normalize_status value =
    let status = to_lower (trim (if is_empty value then "unknown" else value)) in
    if status == "exited" then "offline" else status

abbrev pub owned_by : Option String → String → Bool
owned_by none id = false
owned_by (some o) id = o == id
