-- ===== src/Placement/Ranking.antt =====
-- The filters, the sort and the errors of `rankLeastMemoryUtilized`, and `selectLeastMemoryUtilized`.
use agapornis_api.Common.{
  ℕ, String, Bool, not, ◌&&◌, ◌||◌, Option, none, some, List, [], ◌∷◌, map, if◌then◌else◌, ◌==◌,
  string_eq, nat_beq, ltb, leb, get_or, filter, any, is_nil, Result, ok, err,
}
use agapornis_api.Common.Text.{trim, is_empty}
use agapornis_api.Common.Sorting.{sort_by}
use agapornis_api.Placement.Records.{
  Agent, Fleet, Snapshot, PlacementDecision, PlacementError, no_agents, no_location,
  not_in_location, not_registered, all_in_maintenance, no_port_range, ports_in_use, no_room,
  none_healthy,
}
use agapornis_api.Placement.Allocations.{normalize_location, snapshot}

-- The comparison that `sort` is given, where it is not above 0.
unfoldable pub before : (String → String → Bool) → Snapshot → Snapshot → Bool
before locale_le a b =
    ltb a.utilization b.utilization
    || nat_beq a.utilization b.utilization
      && (ltb b.memory_available_bytes a.memory_available_bytes
          || nat_beq b.memory_available_bytes a.memory_available_bytes
            && locale_le a.agent.node_id b.agent.node_id)

abbrev pub is_healthy : Snapshot → Bool
is_healthy s = s.healthy

abbrev pub is_active : Snapshot → Bool
is_active s = not s.agent.maintenance_mode

abbrev pub has_memory : ℕ → Snapshot → Bool
has_memory required s = leb required 0 || leb required s.allocation.memory_available_bytes

abbrev pub has_disk : ℕ → Snapshot → Bool
has_disk required s = leb required 0 || leb required s.allocation.disk_available_bytes

abbrev pub has_ports : Snapshot → Bool
has_ports s = ltb 0 s.port_capacity.available

abbrev pub has_range : Snapshot → Bool
has_range s = ltb 0 s.port_capacity.total

-- Why no snapshot is left.
unfoldable pub refusal : List Snapshot → PlacementError
refusal snapshots =
    if not (any is_active snapshots)
    then all_in_maintenance
    else if not (any has_range snapshots)
    then no_port_range
    else if not (any has_ports snapshots)
    then ports_in_use
    else if any is_healthy snapshots
    then no_room
    else none_healthy

unfoldable pub decision : Snapshot → PlacementDecision
unfolding normalize_location
decision s = record {
  node_id = s.agent.node_id;
  memory_utilization = s.utilization;
  memory_usage_bytes = s.memory_usage_bytes;
  memory_total_bytes = s.memory_total_bytes;
  memory_available_bytes = s.memory_available_bytes;
  location = normalize_location s.agent.location;
  port_range_start = s.port_range_start;
  port_range_end = s.port_range_end;
  available_ports = s.port_capacity.available;
  disk_available_bytes = s.allocation.disk_available_bytes;
  maintenance_mode = s.agent.maintenance_mode;
}

-- A request: the memory and the disk, and a location and a node, which may be empty.
pub record Wanted : Type 0 where
  pub memory_bytes : ℕ
  pub disk_bytes : ℕ
  pub location : Option String
  pub node_id : Option String

abbrev pub wanted_node : Wanted → String
wanted_node w = trim (get_or w.node_id "")

abbrev pub at_location : String → Agent → Bool
at_location wanted agent = normalize_location agent.location == wanted

abbrev pub has_node_id : String → Agent → Bool
has_node_id id agent = agent.node_id == id

abbrev pub location_agents : List Agent → String → List Agent
location_agents agents wanted =
    if is_empty wanted then agents else filter (at_location wanted) agents

abbrev pub candidate_agents : List Agent → String → List Agent
candidate_agents agents wanted =
    if is_empty wanted then agents else filter (has_node_id wanted) agents

-- The filters, in the code's order.
unfoldable pub usable : Wanted → List Snapshot → List Snapshot
usable w snapshots =
    let healthy = filter is_healthy snapshots in
    let active = filter is_active healthy in
    let roomy = filter (has_disk w.disk_bytes) (filter (has_memory w.memory_bytes) active) in
    filter has_ports roomy

unfoldable pub candidates : Fleet → Wanted → List Snapshot → List Snapshot
unfolding before sort_by usable
candidates fleet w snapshots = sort_by (before fleet.locale_le) (usable w snapshots)

unfoldable pub rank : Fleet → Wanted → Result PlacementError (List PlacementDecision)
unfolding normalize_location trim snapshot candidates refusal decision
rank fleet w =
    let location = normalize_location w.location in
    let id = wanted_node w in
    let located = location_agents fleet.agents location in
    let chosen = candidate_agents located id in
    let snapshots = map (snapshot fleet) chosen in
    let ranked = candidates fleet w snapshots in
    let registered = any (has_node_id id) fleet.agents in
    let unknown =
      if registered && not (is_empty location) then not_in_location else not_registered in
    if is_nil fleet.agents
    then err no_agents
    else if is_nil located
    then err (if is_empty location then no_agents else no_location)
    else if is_nil chosen && not (is_empty id)
    then err unknown
    else if is_nil ranked
    then err (refusal snapshots)
    else ok (map decision ranked)

-- `candidates[0]`
abbrev pub first {ℓ} : {A : Type ℓ} → List A → Option A
first [] = none
first (x ∷ xs) = some x

abbrev pub first_of :
    Result PlacementError (List PlacementDecision)
    → Result PlacementError (Option PlacementDecision)
first_of (err e) = err e
first_of (ok ds) = ok (first ds)

unfoldable pub select : Fleet → Wanted → Result PlacementError (Option PlacementDecision)
unfolding rank
select fleet w = first_of (rank fleet w)
