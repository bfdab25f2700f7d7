-- ===== src/Plans/Literals.antt =====
-- The plans that `create` and `update` make of a request, with the checks of its fields in the order
-- in which they run.
use agapornis_api.Common.{
  ℕ, min, String, true, false, Option, none, some, List, [], ◌∷◌, if◌then◌else◌, string_eq, nat_beq,
  get_or, Result, ok, ◌>>=◌, is_nil, dedupe,
}
use agapornis_api.Common.Text.{text_or, not_blank}
use agapornis_api.Registry.Types.{DatabaseType, mariadb}
use agapornis_api.Plans.Catalog.{
  Names, listed, image_of, allowed_database_types, database_port_range_mode, legacy_types,
  database_type_eq,
}
use agapornis_api.Plans.Fields.{
  Number, ratio, below_zero, not_finite, PlanError, or_default, positive_number,
  non_negative_number, required_string, plan_id, swap_storage, pinned_threads, external_ids,
  allowed_egg_ids, plan_variables, normalize_location,
}
use agapornis_api.Plans.Records.{Plan, PlanRequest}

abbrev pub head_image : List DatabaseType → String
head_image [] = image_of mariadb
head_image (t ∷ ts) = image_of t

-- A number that must be given.
abbrev pub given : Option Number → Number
given value = get_or value not_finite

abbrev pub at_most_32 : ℕ → ℕ
at_most_32 n = min 32 n

-- `databasePortRangeEnd || databasePortRangeStart || 33160`
abbrev pub or_number : Option Number → Number → Number
or_number none other = other
or_number (some below_zero) other = below_zero
or_number (some not_finite) other = not_finite
or_number (some (ratio n d)) other = if nat_beq n 0 then other else ratio n d

abbrev pub range_end : PlanRequest → Number
range_end input =
    or_number input.database_port_range_end (or_default input.database_port_range_start 33160)

-- A number above 0, or the default where it is missing or 0; and a number from 0 on, or 0.
abbrev pub positive_or : Option Number → ℕ → String → Result PlanError ℕ
positive_or value default field = positive_number (or_default value default) field

abbrev pub zero_or : Option Number → String → Result PlanError ℕ
zero_or value field = non_negative_number (get_or value (ratio 0 0)) field

-- The object literal of `create`, whose checks run in the order of its fields. `uuid` is the start of
-- what `randomUUID` draws.
unfoldable pub new_plan : String → ℕ → PlanRequest → Result PlanError Plan
new_plan uuid now input = do
  id ← plan_id (text_or input.id (text_or input.name uuid))
  name ← required_string input.name "name"
  egg ← required_string input.egg_id "eggId"
  memory ← positive_number (given input.memory_mb) "memoryMb"
  disk ← positive_number (given input.disk_mb) "diskMb"
  cpu ← positive_or input.cpu_limit_percentage 100 "cpuLimitPercentage"
  threads ← pinned_threads input.cpu_pinned_threads
  swap ← zero_or input.swap_memory_mb "swapMemoryMb"
  ports ← positive_or input.port_count 1 "portCount"
  databases ← zero_or input.database_limit "databaseLimit"
  db_memory ← positive_or input.database_memory_mb 512 "databaseMemoryMb"
  db_disk ← positive_or input.database_disk_mb 1024 "databaseDiskMb"
  db_cpu ← positive_or input.database_cpu_limit_percentage 50 "databaseCpuLimitPercentage"
  start ← positive_or input.database_port_range_start 33060 "databasePortRangeStart"
  end ← positive_number (range_end input) "databasePortRangeEnd"
  backups ← zero_or input.backup_limit "backupLimit"
  let types =
      allowed_database_types input.allowed_database_types (not_blank input.database_docker_image)
  ok (record {
    id = id;
    name = name;
    enabled = get_or input.enabled true;
    external_ids = external_ids input.external_ids;
    egg_id = egg;
    egg_change_allowed = get_or input.egg_change_allowed false;
    allowed_egg_ids = allowed_egg_ids input.allowed_egg_ids input.egg_id;
    location = normalize_location input.location;
    node_id = text_or input.node_id "auto-least-memory";
    memory_mb = memory;
    disk_mb = disk;
    cpu_limit_percentage = cpu;
    cpu_pinned_threads = threads;
    swap_memory_mb = swap;
    swap_memory_storage = swap_storage input.swap_memory_storage;
    port_count = at_most_32 ports;
    databases_enabled = get_or input.databases_enabled false;
    database_limit = databases;
    database_memory_mb = db_memory;
    database_disk_mb = db_disk;
    database_cpu_limit_percentage = db_cpu;
    database_docker_image = head_image types;
    allowed_database_types = types;
    database_port_range_mode =
        database_port_range_mode (get_or input.database_port_range_mode "game");
    database_port_range_start = start;
    database_port_range_end = end;
    backup_limit = backups;
    docker_image = not_blank input.docker_image;
    variables = plan_variables [] (get_or input.variables []);
    created_at = now;
    updated_at = now;
  })

-- `input?.field === undefined ? existing.field : check(input.field)`
abbrev pub kept_or {ℓ κ} :
    {A : Type ℓ} {B : Type κ} → Option A → B → (A → Result PlanError B) → Result PlanError B
kept_or none old check = ok old
kept_or (some a) old check = check a

abbrev pub whole : String → Number → Result PlanError ℕ
whole field n = positive_number n field

abbrev pub whole_or_zero : String → Number → Result PlanError ℕ
whole_or_zero field n = non_negative_number n field

abbrev pub or_names : Option Names → List String → Names
or_names none ids = listed ids
or_names (some names) ids = names

-- `existing.portCount || 1`
abbrev pub ports_or_one : ℕ → ℕ
ports_or_one n = if nat_beq n 0 then 1 else n

-- The allowed eggs after an update: the names and the egg that are given, and the egg and the
-- allowed eggs of the plan.
abbrev pub next_eggs : Option Names → Option String → String → List String → List String
next_eggs none none old olds = olds
next_eggs names egg old olds = allowed_egg_ids (some (or_names names olds)) (some (text_or egg old))

abbrev pub next_types : Plan → PlanRequest → List DatabaseType
next_types old input = elim input.allowed_database_types [
  | none ↦ old.allowed_database_types
  | some names ↦ allowed_database_types (some names) none
]

-- The types that the image is taken from. A list of types passes the check of names unchanged.
abbrev pub image_types : Plan → PlanRequest → List DatabaseType
image_types old input = elim input.allowed_database_types [
  | none ↦
      if is_nil old.allowed_database_types
      then legacy_types old.database_docker_image
      else dedupe old.allowed_database_types
  | some names ↦ allowed_database_types (some names) (some old.database_docker_image)
]

-- The object literal of `update`.
unfoldable pub next_plan : Plan → ℕ → PlanRequest → Result PlanError Plan
next_plan old now input = do
  name ← kept_or input.name old.name (λ v. required_string (some v) "name")
  egg ← kept_or input.egg_id old.egg_id (λ v. required_string (some v) "eggId")
  memory ← kept_or input.memory_mb old.memory_mb (whole "memoryMb")
  disk ← kept_or input.disk_mb old.disk_mb (whole "diskMb")
  cpu ← kept_or input.cpu_limit_percentage old.cpu_limit_percentage (whole "cpuLimitPercentage")
  threads ← kept_or input.cpu_pinned_threads old.cpu_pinned_threads (λ v. pinned_threads (some v))
  swap ← kept_or input.swap_memory_mb old.swap_memory_mb (whole_or_zero "swapMemoryMb")
  ports ←
      kept_or input.port_count (ports_or_one old.port_count)
        (λ v. whole "portCount" v >>= λ n. ok (at_most_32 n))
  databases ← kept_or input.database_limit old.database_limit (whole_or_zero "databaseLimit")
  db_memory ← kept_or input.database_memory_mb old.database_memory_mb (whole "databaseMemoryMb")
  db_disk ← kept_or input.database_disk_mb old.database_disk_mb (whole "databaseDiskMb")
  db_cpu ←
      kept_or input.database_cpu_limit_percentage old.database_cpu_limit_percentage
        (whole "databaseCpuLimitPercentage")
  start ←
      kept_or input.database_port_range_start old.database_port_range_start
        (whole "databasePortRangeStart")
  end ←
      kept_or input.database_port_range_end old.database_port_range_end
        (whole "databasePortRangeEnd")
  backups ← kept_or input.backup_limit old.backup_limit (whole_or_zero "backupLimit")
  ok (record old {
    name = name;
    enabled = get_or input.enabled old.enabled;
    external_ids = elim input.external_ids [
      | none ↦ old.external_ids
      | some names ↦ external_ids (some names)
    ];
    egg_id = egg;
    egg_change_allowed = get_or input.egg_change_allowed old.egg_change_allowed;
    allowed_egg_ids = next_eggs input.allowed_egg_ids input.egg_id old.egg_id old.allowed_egg_ids;
    location = elim input.location [ none ↦ old.location | some v ↦ normalize_location (some v) ];
    node_id = elim input.node_id [
      | none ↦ old.node_id
      | some v ↦ text_or (some v) "auto-least-memory"
    ];
    memory_mb = memory;
    disk_mb = disk;
    cpu_limit_percentage = cpu;
    cpu_pinned_threads = threads;
    swap_memory_mb = swap;
    swap_memory_storage = elim input.swap_memory_storage [
      | none ↦ old.swap_memory_storage
      | some v ↦ swap_storage (some v)
    ];
    port_count = ports;
    databases_enabled = get_or input.databases_enabled old.databases_enabled;
    database_limit = databases;
    database_memory_mb = db_memory;
    database_disk_mb = db_disk;
    database_cpu_limit_percentage = db_cpu;
    database_docker_image = head_image (image_types old input);
    allowed_database_types = next_types old input;
    database_port_range_mode = elim input.database_port_range_mode [
      | none ↦ old.database_port_range_mode
      | some v ↦ database_port_range_mode v
    ];
    database_port_range_start = start;
    database_port_range_end = end;
    backup_limit = backups;
    docker_image = elim input.docker_image [
      | none ↦ old.docker_image
      | some v ↦ not_blank (some v)
    ];
    variables = elim input.variables [ none ↦ old.variables | some v ↦ plan_variables [] v ];
    updated_at = now;
  })
