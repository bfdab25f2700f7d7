-- ===== src/Registry/Ports.antt =====
-- Ports of a node: `usedPorts`, `isPortInUse`, `allocateRandomPort`, `portCapacity` and
-- `reserveRandomPort` of server-registry.service.ts. Port numbers and bounds are whole numbers.
-- The rows of `server-databases.json` are a list.
pub mod Mappings
pub mod Free
pub mod Capacity
pub mod Exclusive
use agapornis_api.Common.{
  ℕ, zero, suc, ◌+◌, ◌-◌, ◌≤◌, min, max, String, Bool, true, false, not, ◌&&◌, ◌||◌, Option, none,
  some, List, [], ◌∷◌, ◌++◌, if◌then◌else◌, ◌==◌, nat_beq, string_eq, nat_eq, contains, filter,
  length, Result, ok, err, ltb, leb,
}
use agapornis_api.Common.Dict.{values}
use agapornis_api.Registry.Types.{ServerRecord}
use agapornis_api.Registry.Store.{Store, Failure, lookup, upsert}
use agapornis_api.Registry.Ports.Mappings.{Json, port_mappings, whole_ports}
use agapornis_api.Registry.Lifecycle.{Reservation, replay_reservation}

pub data PortFailure : Type 0 where
  invalid_range none_available : PortFailure
  refused : Failure → PortFailure

-- A row of the databases' file.
pub record DatabaseRow : Type 0 where
  pub node_id : String
  pub port : Option ℕ
  pub status : String

abbrev pub opt_list : Option ℕ → List ℕ
opt_list none = []
opt_list (some p) = p ∷ []

abbrev pub get_elem? {ℓ} : {A : Type ℓ} → List A → ℕ → Option A
get_elem? [] i = none
get_elem? (x ∷ xs) zero = some x
get_elem? (x ∷ xs) (suc i) = get_elem? xs i

-- The ports of the servers of one node: the assigned ones first, as the set is filled.
unfoldable pub assigned_ports : String → List ServerRecord → List ℕ
assigned_ports node [] = []
assigned_ports node (r ∷ rs) =
    let rest = assigned_ports node rs in
    if r.node_id == node then opt_list r.assigned_host_port ++ rest else rest

unfoldable pub mapped_ports : Json → String → List ServerRecord → List ℕ
unfolding port_mappings whole_ports
mapped_ports json node [] = []
mapped_ports json node (r ∷ rs) =
    let rest = mapped_ports json node rs in
    if r.node_id == node then whole_ports (port_mappings json r.variables) ++ rest else rest

unfoldable pub database_ports : String → List DatabaseRow → List ℕ
database_ports node [] = []
database_ports node (d ∷ ds) =
    let rest = database_ports node ds in
    if d.node_id == node && not (d.status == "deleting") then opt_list d.port ++ rest else rest

-- The numbers of the set. A host port that is no number is in the set as well, but the code asks
-- the set for numbers only, which such a value never equals.
unfoldable pub used_ports : Json → Store → List DatabaseRow → String → List ℕ
unfolding assigned_ports mapped_ports database_ports
used_ports json st rows node =
    assigned_ports node (values st.servers)
    ++ (mapped_ports json node (values st.servers) ++ database_ports node rows)

-- The ports from `port` on, `rounds` of them, that are not in `used`.
unfoldable pub free_from : List ℕ → ℕ → ℕ → List ℕ
free_from used zero port = []
free_from used (suc rounds) port =
    let rest = free_from used rounds (port + 1) in if contains used port then rest else port ∷ rest

abbrev pub rounds : ℕ → ℕ → ℕ
rounds lo hi = hi + 1 - lo

abbrev pub picked : Option ℕ → Result PortFailure ℕ
picked none = err none_available
picked (some p) = ok p

-- `draw n` is `Math.floor(Math.random() * n)`.
unfoldable pub allocate_random_port : (draw : ℕ → ℕ) → List ℕ → ℕ → ℕ → Result PortFailure ℕ
unfolding free_from
allocate_random_port draw used start end =
    let lo = min start end in
    let hi = max start end in
    let available = free_from used (rounds lo hi) lo in
    if leb lo 0 || leb hi 0
    then err invalid_range
    else if nat_beq (length available) 0
    then err none_available
    else picked (get_elem? available (draw (length available)))

pub record PortCapacity : Type 0 where
  pub total : ℕ
  pub used : ℕ
  pub available : ℕ
  pub exhausted : Bool

unfoldable pub count_used : List ℕ → ℕ → ℕ → ℕ
count_used used zero port = 0
count_used used (suc rounds) port =
    let rest = count_used used rounds (port + 1) in if contains used port then rest + 1 else rest

unfoldable pub port_capacity : List ℕ → ℕ → ℕ → PortCapacity
unfolding count_used
port_capacity used start end =
    let lo = min start end in
    let hi = max start end in
    let busy = count_used used (rounds lo hi) lo in
    let total = hi - lo + 1 in
    let available = total - busy in
    if ltb lo 1 || ltb 65535 hi
    then record { total = 0; used = 0; available = 0; exhausted = true }
    else record {
      total = total;
      used = busy;
      available = available;
      exhausted = nat_beq available 0;
    }

abbrev placed :
    Store → ServerRecord → Result PortFailure ℕ → Result PortFailure (Reservation × Store)
placed st r (err e) = err e
placed st r (ok port) =
    let reserved = record r { assigned_host_port = some port; status = "provisioning" } in
    ok (record { server = reserved; replay = false }, upsert st reserved)

abbrev replayed : Store → Result Failure Reservation → Result PortFailure (Reservation × Store)
replayed st (ok res) = ok (res, st)
replayed st (err e) = err (refused e)

-- The call reads twice before it writes: `read` is what `get` gave, `seen` the store that
-- `usedPorts` lists with the databases' `rows`, and `st` the store when the record is stored. The
-- lock of a reservation is by the server's id, so that calls for other ids can come between.
unfoldable pub reserve_random_port :
    Json
    → (ℕ → ℕ)
    → Option ServerRecord
    → Store
    → List DatabaseRow
    → Store
    → ServerRecord
    → ℕ
    → ℕ
    → Result PortFailure (Reservation × Store)
unfolding allocate_random_port used_ports replay_reservation
reserve_random_port json draw read seen rows st r start end = elim read [
  | some existing ↦ replayed st (replay_reservation existing r)
  | none ↦ placed st r (
      allocate_random_port draw (used_ports json seen rows r.node_id) (min start end)
        (max start end))
]
