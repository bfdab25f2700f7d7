-- ===== src/Plans/Records.antt =====
-- `ServerPlan`, and what `create` and `update` read of a request: the two spellings of a field are one
-- field here. `databaseCpuCores` is always undefined.
use agapornis_api.Common.{ℕ, String, Bool, Option, List}
use agapornis_api.Registry.Types.{DatabaseType, PortRangeMode, Variables}
use agapornis_api.Plans.Catalog.{Names}
use agapornis_api.Plans.Fields.{Number, SwapStorage}

pub record Plan : Type 0 where
  pub id : String
  pub name : String
  pub enabled : Bool
  pub external_ids : List String
  pub egg_id : String
  pub egg_change_allowed : Bool
  pub allowed_egg_ids : List String
  pub location : String
  pub node_id : String
  pub memory_mb : ℕ
  pub disk_mb : ℕ
  pub cpu_limit_percentage : ℕ
  pub cpu_pinned_threads : String
  pub swap_memory_mb : ℕ
  pub swap_memory_storage : SwapStorage
  pub port_count : ℕ
  pub databases_enabled : Bool
  pub database_limit : ℕ
  pub database_memory_mb : ℕ
  pub database_disk_mb : ℕ
  pub database_cpu_limit_percentage : ℕ
  pub database_docker_image : String
  pub allowed_database_types : List DatabaseType
  pub database_port_range_mode : PortRangeMode
  pub database_port_range_start : ℕ
  pub database_port_range_end : ℕ
  pub backup_limit : ℕ
  pub docker_image : Option String
  pub variables : Variables
  pub created_at : ℕ
  pub updated_at : ℕ

pub record PlanRequest : Type 0 where
  pub id : Option String
  pub name : Option String
  pub enabled : Option Bool
  pub external_ids : Option Names
  pub egg_id : Option String
  pub egg_change_allowed : Option Bool
  pub allowed_egg_ids : Option Names
  pub location : Option String
  pub node_id : Option String
  pub memory_mb : Option Number
  pub disk_mb : Option Number
  pub cpu_limit_percentage : Option Number
  pub cpu_pinned_threads : Option String
  pub swap_memory_mb : Option Number
  pub swap_memory_storage : Option String
  pub port_count : Option Number
  pub databases_enabled : Option Bool
  pub database_limit : Option Number
  pub database_memory_mb : Option Number
  pub database_disk_mb : Option Number
  pub database_cpu_limit_percentage : Option Number
  pub database_docker_image : Option String
  pub allowed_database_types : Option Names
  pub database_port_range_mode : Option String
  pub database_port_range_start : Option Number
  pub database_port_range_end : Option Number
  pub backup_limit : Option Number
  pub docker_image : Option String
  pub variables : Option Variables
