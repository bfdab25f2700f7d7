-- ===== src/Registry/Tests.antt =====
-- The registry at concrete inputs.
use agapornis_api.Common.{
  ℕ, ◌≤◌, ◌<◌, min, max, true, false, not, ◌&&◌, none, some, String, string_eq, nat_eq, List, [],
  ◌∷◌, ==_iff, contains, ok, err, ◌≡◌, ◌≢◌, refl, ◌⊎◌, ◌↔◌, arith, All,
}
use agapornis_api.Common.Dict.{get, set}
use agapornis_api.Registry.Types.{
  ServerRecord, User, Role, console_send, scope_eq, normalize_status, custom, Collaborator,
  files_view,
}
use agapornis_api.Registry.Access.{
  can_access, can_perform, can_write, can_manage_access, access_for, is_support, is_staff,
}
use agapornis_api.Registry.Access.Permissions.{MayPerform, can_perform_iff}
use agapornis_api.Registry.Access.Consistency.{access_for-can_write}
use agapornis_api.Registry.Store.{Store, lookup, upsert, after, already_in, normalized}
use agapornis_api.Registry.Store.Lookup.{IsKeyed}
use agapornis_api.Registry.Lifecycle.{
  Claim, claim_deletion, set_status, reserve, finalize_provisioning,
}
use agapornis_api.Registry.Lifecycle.Claims.{claim_deletion_fresh}
use agapornis_api.Registry.Lifecycle.Reservations.{reserve_retry, finished}
use agapornis_api.Registry.Lifecycle.Steps.{
  Registry, Event, starts, goes_on, stores, claims_deletion, sets_status, claims_transition,
  releases, resume, step, run, status_of,
}
use agapornis_api.Registry.Lifecycle.Steps.Busy.{run-busy}
use agapornis_api.Registry.Ports.Mappings.{Json, whole, text, port_mappings, whole_ports}
use agapornis_api.Registry.Sharing.{remove_collaborator}
use agapornis_api.Registry.Sharing.Grants.{remove_collaborator_revokes}
use agapornis_api.Registry.Ports.Capacity.{allocate_random_port_total}
use agapornis_api.Registry.Ports.{
  none_available, port_capacity, allocate_random_port, reserve_random_port, DatabaseRow,
}
use agapornis_api.Registry.Ports.Free.{allocate_random_port_sound}
use agapornis_api.Registry.Ports.Exclusive.{reserve_random_port_exclusive, Unclaimed}

abbrev pub helper : Collaborator
helper = record { user_id = "bob"; permission = custom; permissions = console_send ∷ [] }

abbrev pub lobby : ServerRecord
lobby = record {
  id = "s1";
  node_id = "n1";
  name = "lobby";
  egg_id = some "minecraft";
  egg_change_allowed = none;
  allowed_egg_ids = none;
  owner_user_id = some "ann";
  assigned_host_port = some 25565;
  status = "running";
  memory_bytes = some 1024;
  cpu_limit_percentage = none;
  cpu_cores = none;
  disk_limit_bytes = none;
  databases_enabled = none;
  database_limit = none;
  database_memory_bytes = none;
  database_disk_limit_bytes = none;
  database_cpu_limit_percentage = none;
  database_cpu_cores = none;
  database_docker_image = none;
  allowed_database_types = none;
  database_port_range_mode = none;
  database_port_range_start = none;
  database_port_range_end = none;
  backup_limit = none;
  variables = none;
  collaborator_user_ids = none;
  collaborators = some (helper ∷ []);
  created_at = "2024-01-01";
}

abbrev house : Store
house = record { servers = ("s1", lobby) ∷ []; file = none; removed = [] }

abbrev bob : User
bob = record { id = "bob"; role = Role.user }

abbrev eve : User
eve = record { id = "eve"; role = Role.user }

house-IsKeyed : IsKeyed house
unfolding get
house-IsKeyed id r e = ground (arith, ==_iff {A = String} "s1" id)

can_perform_iff_example :
    (can_perform (some lobby) bob console_send ≡ true) ↔ MayPerform lobby bob console_send
can_perform_iff_example = can_perform_iff lobby bob console_send

access_for-can_write_example :
    ((access_for lobby bob).can_manage_access ≡ can_manage_access (some lobby) bob)
    × (can_write (some lobby) bob ≡ (not (is_support bob.role) && (access_for lobby bob).can_write))
access_for-can_write_example = access_for-can_write lobby bob

abbrev deleting : ServerRecord
deleting = record lobby { status = "deleting" }

abbrev claimed : Store
claimed = record { servers = ("s1", deleting) ∷ []; file = some (deleting ∷ []); removed = [] }

abbrev first : Claim
first = record { server = deleting; replay = false; previous_status = "running" }

first_claim : claim_deletion (lookup house "s1") house false ≡ ok (some first, claimed)
unfolding claim_deletion get set upsert normalized normalize_status
first_claim = refl

claim_deletion_fresh_example :
    (lookup claimed "s2" ≡ lookup house "s2")
    × (first.server.status ≡ "deleting")
    × (lookup house "s1" ≡ some (record first.server { status = first.previous_status }))
    × (claim_deletion (lookup claimed "s1") house true
        ≡ ok (
          some (record { server = first.server; replay = true; previous_status = "deleting" }),
          house,
        ))
    × (claim_deletion (lookup house "s1") house false ≡ ok (some first, upsert house first.server))
claim_deletion_fresh_example =
    claim_deletion_fresh (lookup house "s1") house claimed house "s2" false true first first_claim
      refl

abbrev arena : ServerRecord
arena = record lobby { id = "s2"; assigned_host_port = none }

reserve_retry_example :
    let st₁ = after house (reserve (lookup house "s2") house arena) in
    let st₂ = after st₁ (finalize_provisioning (lookup st₁ "s2") st₁ (some 25570)) in
    (lookup st₁ "s2" ≡ some (record arena { status = "provisioning" }))
    × (reserve (lookup st₁ "s2") st₁ arena ≡ err (already_in "provisioning"))
    × (reserve (lookup st₂ "s2") st₂ arena
        ≡ ok (record { server = finished arena (some 25570); replay = true }, st₂))
unfolding get
reserve_retry_example = reserve_retry house arena (some 25570) refl

-- While the server is marked, a status report reads it, a claim of a transition reads it, an
-- `upsert` stores it as it is, and the two calls go on in the order in which they came.
abbrev history : List Event
history =
    starts (sets_status "s1" "running")
    ∷ starts (claims_transition "s1" "transferring")
    ∷ stores deleting
    ∷ goes_on 1
    ∷ releases "s1"
    ∷ goes_on 0
    ∷ []

-- A call about another server is under way.
abbrev under_way : Registry
under_way = record {
  store = claimed;
  waiting = record { call = sets_status "s9" "running"; read = none } ∷ [];
}

claimed-IsKeyed : IsKeyed claimed
unfolding get
claimed-IsKeyed id r e = ground (arith, ==_iff {A = String} "s1" id)

run-busy_example : status_of (run under_way history).store "s1" ≡ some "deleting"
unfolding get normalize_status
run-busy_example =
    run-busy under_way history "s1" "deleting" (claimed-IsKeyed, (λ r e. absurd (ground arith), tt))
      (refl, tt) refl refl (refl, (refl, (refl, (refl, (refl, (refl, tt))))))

-- A status report that read the server before the mark overwrites it.
mark_overwritten :
    status_of
      (run
        (record { store = house; waiting = [] })
        (starts (sets_status "s1" "running")
          ∷ starts (claims_deletion "s1" false)
          ∷ goes_on 0
          ∷ goes_on 0
          ∷ [])).store
      "s1"
    ≡ some "running"
unfolding run step resume claim_deletion set_status get set upsert normalized normalize_status
mark_overwritten = refl

abbrev shared : ServerRecord
shared = record lobby {
  collaborator_user_ids = some ("eve" ∷ []);
  collaborators = some (
      helper ∷ record { user_id = "eve"; permission = custom; permissions = files_view ∷ [] } ∷ []);
}

abbrev eve_id : String
eve_id = "eve"

abbrev bob_id : String
bob_id = "bob"

eve-bob : eve_id ≢ bob_id
eve-bob e = let t = (==_iff eve_id bob_id).1 e in cc

abbrev shared_house : Store
shared_house = record { servers = ("s1", shared) ∷ []; file = some (shared ∷ []); removed = [] }

abbrev unshared : ServerRecord
unshared = record shared { collaborator_user_ids = some []; collaborators = some (helper ∷ []) }

abbrev unshared_house : Store
unshared_house = record {
  servers = ("s1", unshared) ∷ [];
  file = some (unshared ∷ []);
  removed = [];
}

unsharing : remove_collaborator shared_house "s1" "eve" ≡ ok (unshared, unshared_house)
unfolding remove_collaborator get set
unsharing = refl

remove_collaborator_revokes_example :
    (can_access (lookup unshared_house "s1") eve ≡ false)
    × (can_perform (lookup unshared_house "s1") eve files_view ≡ false)
    × (can_perform (lookup unshared_house "s1") bob files_view
        ≡ can_perform (lookup shared_house "s1") bob files_view)
unfolding get is_staff
remove_collaborator_revokes_example =
    remove_collaborator_revokes shared_house unshared_house "s1" eve bob files_view unshared shared
      unsharing refl refl refl eve-bob

abbrev zero_draw : ℕ → ℕ
zero_draw n = 0

abbrev busy_ports : List ℕ
busy_ports = 25565 ∷ []

allocate_random_port_sound_example :
    (0 < 25566)
    × (min 25570 25565 ≤ 25566)
    × (25566 ≤ max 25570 25565)
    × (contains busy_ports 25566 ≡ false)
unfolding allocate_random_port
allocate_random_port_sound_example =
    allocate_random_port_sound zero_draw busy_ports 25570 25565 25566 refl

-- The list of any text maps the port 25568 as a number and the port 25567 as a text.
abbrev mapping : Json
mapping = record { parse = λ s. some (whole 25568 ∷ text "25567" ∷ []); above_zero = λ s. true }

abbrev rows : List DatabaseRow
rows = record { node_id = "n1"; port = some 25566; status = "running" } ∷ []

abbrev reserved : ServerRecord
reserved = record arena { assigned_host_port = some 25567; status = "provisioning" }

abbrev empty_house : Store
empty_house = record { servers = []; file = none; removed = [] }

abbrev reserved_house : Store
reserved_house = record {
  servers = ("s2", reserved) ∷ [];
  file = some (reserved ∷ []);
  removed = [];
}

-- The store that the ports are read of holds the lobby; meanwhile it was emptied.
reserving :
    reserve_random_port mapping zero_draw none house rows empty_house arena 25570 25565
    ≡ ok (record { server = reserved; replay = false }, reserved_house)
unfolding reserve_random_port get set upsert normalized normalize_status
reserving = refl

reserve_random_port_exclusive_example :
    (p : ℕ) × (reserved.assigned_host_port ≡ some p)
    × (min 25570 25565 ≤ p)
    × (p ≤ max 25570 25565)
    × (lobby.assigned_host_port ≢ some p)
    × (contains (whole_ports (port_mappings mapping lobby.variables)) p ≡ false)
    × All (Unclaimed "n1" p) rows
    × (lookup reserved_house "s1" ≡ none)
unfolding get
reserve_random_port_exclusive_example =
    reserve_random_port_exclusive mapping zero_draw none house empty_house reserved_house rows arena
      lobby 25570 25565 (record { server = reserved; replay = false }) "s1" "s1" reserving refl refl
      refl

allocate_random_port_total_example :
    ((p : ℕ) × ((port_capacity busy_ports 25570 25565).exhausted ≡ false)
      × (allocate_random_port zero_draw busy_ports 25570 25565 ≡ ok p))
    ⊎ (((port_capacity busy_ports 25570 25565).exhausted ≡ true)
        × (allocate_random_port zero_draw busy_ports 25570 25565 ≡ err none_available))
allocate_random_port_total_example =
    allocate_random_port_total zero_draw busy_ports 25570 25565 (λ n h. h) (omega arith)
      (omega arith)
