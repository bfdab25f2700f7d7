-- ===== src/Registry/Lifecycle.antt =====
-- The life of a server in server-registry.service.ts: `reserve`, `finalizeProvisioning`,
-- `releaseProvisioning`, `claimDeletion`, `restoreDeletion`, `claimTransition`,
-- `restoreTransition`, `finalizeTransfer`, `setStatus` and `writeSettings`. Each but
-- `releaseProvisioning` first awaits `get`, and other calls can run before it goes on: `read` is
-- what `get` gave, and `st` is the store when the call goes on, from where it runs to its end without
-- a pause. Each returns the new store with its result; an error is thrown before anything is stored.
pub mod Steps
pub mod Claims
pub mod Reservations
use agapornis_api.Common.{
  ℕ, String, Bool, true, false, not, ◌&&◌, ◌||◌, Option, none, some, List, [], ◌∷◌, if◌then◌else◌,
  ◌==◌, string_eq, contains, get_or, or_else, Result, ok, err,
}
use agapornis_api.Registry.Types.{
  ServerRecord, Variables, DatabaseType, PortRangeMode, normalize_status,
}
use agapornis_api.Registry.Store.{
  Store, Failure, not_found, not_active, still_provisioning, needs_provisioning, foreign_id,
  already_in, frozen_while, cannot_finalize_from, lookup, upsert, drop_server, normalized,
}

-- `['provisioning', 'deleting', 'transferring'].includes(status)`
abbrev pub is_busy : String → Bool
is_busy status = contains ("provisioning" ∷ "deleting" ∷ "transferring" ∷ []) status

unfoldable pub is_stable : String → Bool
is_stable status =
    contains ("created" ∷ "running" ∷ "starting" ∷ "stopped" ∷ "offline" ∷ "frozen" ∷ []) status

pub record Reservation : Type 0 where
  pub server : ServerRecord
  pub replay : Bool

-- `replayReservation`; a missing owner or egg compares as the empty text.
unfoldable pub replay_reservation : ServerRecord → ServerRecord → Result Failure Reservation
replay_reservation existing requested =
    let same_identity =
      existing.node_id == requested.node_id
      && get_or existing.owner_user_id "" == get_or requested.owner_user_id ""
      && get_or existing.egg_id "" == get_or requested.egg_id "" in
    if is_stable existing.status && same_identity
    then ok (record { server = existing; replay = true })
    else if not (is_stable existing.status)
    then err (already_in existing.status)
    else err foreign_id

abbrev replayed : Store → Result Failure Reservation → Result Failure (Reservation × Store)
replayed st (ok r) = ok (r, st)
replayed st (err e) = err e

unfoldable pub reserve :
    Option ServerRecord → Store → ServerRecord → Result Failure (Reservation × Store)
unfolding replay_reservation
reserve read st r = elim read [
  | some existing ↦ replayed st (replay_reservation existing r)
  | none ↦
      let reserved = record r { status = "provisioning" } in
      ok (record { server = reserved; replay = false }, upsert st reserved)
]

-- `assignedHostPort || current.assignedHostPort`; port 0 reads as missing.
abbrev pub port_or : Option ℕ → Option ℕ → Option ℕ
port_or (some (ℕ.suc p)) old = some (ℕ.suc p)
port_or _ old = old

unfoldable pub finalize_provisioning :
    Option ServerRecord → Store → Option ℕ → Result Failure (Option ServerRecord × Store)
finalize_provisioning read st port = elim read [
  | none ↦ ok (none, st)
  | some current ↦
      let next = record current {
        assigned_host_port = port_or port current.assigned_host_port;
        status = "created";
      } in
      if current.status == "provisioning"
      then ok (some next, upsert st next)
      else err (cannot_finalize_from current.status)
]

unfoldable pub release_provisioning : Store → String → Store
release_provisioning st id = elim (lookup st id) [
  | none ↦ st
  | some current ↦ if current.status == "provisioning" then drop_server st id else st
]

pub record Claim : Type 0 where
  pub server : ServerRecord
  pub replay : Bool
  pub previous_status : String

abbrev claim : ServerRecord → Bool → String → Option Claim
claim r again previous = some (record { server = r; replay = again; previous_status = previous })

unfoldable pub claim_deletion :
    Option ServerRecord → Store → Bool → Result Failure (Option Claim × Store)
claim_deletion read st allow_provisioning = elim read [
  | none ↦ ok (none, st)
  | some current ↦
      let deleting = record current { status = "deleting" } in
      if current.status == "deleting"
      then ok (claim current true current.status, st)
      else if current.status == "provisioning" && not allow_provisioning
      then err still_provisioning
      else ok (claim deleting false current.status, upsert st deleting)
]

-- `restoreDeletion(id, status)` is `restoreTransition(id, 'deleting', status)` in the JSON store.
unfoldable pub restore_transition :
    Option ServerRecord → Store → String → String → Option ServerRecord × Store
restore_transition read st transition status = elim read [
  | none ↦ (none, st)
  | some current ↦
      let restored = record current { status = status } in
      if current.status == transition
      then (some restored, upsert st restored)
      else (some current, st)
]

unfoldable pub restore_deletion : Option ServerRecord → Store → String → Option ServerRecord × Store
unfolding restore_transition
restore_deletion read st status = restore_transition read st "deleting" status

-- The record as it was, with its status.
unfoldable pub claim_transition :
    Option ServerRecord → Store → String → Result Failure ((ServerRecord × String) × Store)
claim_transition read st transition = elim read [
  | none ↦ err not_found
  | some current ↦
      if is_busy current.status
      then err (already_in current.status)
      else ok ((current, current.status), upsert st (record current { status = transition }))
]

unfoldable pub finalize_transfer :
    Option ServerRecord → Store → String → Option ℕ → String → Result Failure (ServerRecord × Store)
finalize_transfer read st target port status = elim read [
  | none ↦ err not_active
  | some current ↦
      let moved = record current {
        node_id = target;
        assigned_host_port = port_or port current.assigned_host_port;
        status = status;
      } in
      if current.status == "transferring" then ok (moved, upsert st moved) else err not_active
]

unfoldable pub set_status : Option ServerRecord → Store → String → Option ServerRecord × Store
unfolding normalize_status
set_status read st status = elim read [
  | none ↦ (none, st)
  | some current ↦
      let next = record current { status = normalize_status status } in
      if is_busy current.status then (some current, st) else (some next, upsert st next)
]

-- `ServerSettingsPatch`: `none` is a field that the patch does not have, so that the spread keeps
-- the record's. (A patch field that is present and `undefined` is not modelled.)
pub record Patch : Type 0 where
  pub name : Option String
  pub variables : Option Variables
  pub memory_bytes : Option ℕ
  pub cpu_limit_percentage : Option ℕ
  pub cpu_cores : Option ℕ
  pub disk_limit_bytes : Option ℕ
  pub databases_enabled : Option Bool
  pub database_limit : Option ℕ
  pub database_memory_bytes : Option ℕ
  pub database_disk_limit_bytes : Option ℕ
  pub database_cpu_limit_percentage : Option ℕ
  pub database_cpu_cores : Option ℕ
  pub database_docker_image : Option String
  pub allowed_database_types : Option (List DatabaseType)
  pub database_port_range_mode : Option PortRangeMode
  pub database_port_range_start : Option ℕ
  pub database_port_range_end : Option ℕ
  pub backup_limit : Option ℕ
  pub egg_change_allowed : Option Bool
  pub allowed_egg_ids : Option (List String)

unfoldable pub patched : ServerRecord → Patch → ServerRecord
patched r p = record r {
  name = get_or p.name r.name;
  variables = or_else p.variables r.variables;
  memory_bytes = or_else p.memory_bytes r.memory_bytes;
  cpu_limit_percentage = or_else p.cpu_limit_percentage r.cpu_limit_percentage;
  cpu_cores = or_else p.cpu_cores r.cpu_cores;
  disk_limit_bytes = or_else p.disk_limit_bytes r.disk_limit_bytes;
  databases_enabled = or_else p.databases_enabled r.databases_enabled;
  database_limit = or_else p.database_limit r.database_limit;
  database_memory_bytes = or_else p.database_memory_bytes r.database_memory_bytes;
  database_disk_limit_bytes = or_else p.database_disk_limit_bytes r.database_disk_limit_bytes;
  database_cpu_limit_percentage =
      or_else p.database_cpu_limit_percentage r.database_cpu_limit_percentage;
  database_cpu_cores = or_else p.database_cpu_cores r.database_cpu_cores;
  database_docker_image = or_else p.database_docker_image r.database_docker_image;
  allowed_database_types = or_else p.allowed_database_types r.allowed_database_types;
  database_port_range_mode = or_else p.database_port_range_mode r.database_port_range_mode;
  database_port_range_start = or_else p.database_port_range_start r.database_port_range_start;
  database_port_range_end = or_else p.database_port_range_end r.database_port_range_end;
  backup_limit = or_else p.backup_limit r.backup_limit;
  egg_change_allowed = or_else p.egg_change_allowed r.egg_change_allowed;
  allowed_egg_ids = or_else p.allowed_egg_ids r.allowed_egg_ids;
}

unfoldable pub write_settings :
    Option ServerRecord → Store → Patch → Bool → Result Failure (Option ServerRecord × Store)
write_settings read st patch provisioning_only = elim read [
  | none ↦ ok (none, st)
  | some current ↦
      let next = patched current patch in
      if provisioning_only && not (current.status == "provisioning")
      then err needs_provisioning
      else if not provisioning_only && is_busy current.status
      then err (frozen_while current.status)
      else ok (some next, upsert st next)
]
