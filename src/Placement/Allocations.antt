-- ===== src/Placement/Allocations.antt =====
-- What the servers of a node are given, and the snapshot of a node: `allocationFor`, `effectiveLimit`,
-- `allocatedServerStorage` and the map of `rankLeastMemoryUtilized`.
use agapornis_api.Common.{
  ℕ, ◌+◌, ◌-◌, ◌*◌, min, String, Bool, false, not, ◌&&◌, Option, none, List, [], ◌∷◌, if◌then◌else◌,
  ◌==◌, string_eq, nat_beq, ltb, get_or, filter, length,
}
use agapornis_api.Common.Dict.{get, set, values}
use agapornis_api.Common.Text.{trim, to_lower, is_empty}
use agapornis_api.Registry.Types.{ServerRecord}
use agapornis_api.Registry.Ports.{port_capacity, used_ports}
use agapornis_api.Placement.Quotient.{utilization}
use agapornis_api.Placement.Records.{Agent, StatsRow, Fleet, Allocation, Snapshot}

unfoldable pub normalize_location : Option String → String
unfolding trim to_lower
normalize_location value = to_lower (trim (get_or value ""))

-- `0` and a missing limit are no limit.
unfoldable pub effective_limit : Option ℕ → ℕ → ℕ
effective_limit configured physical =
    let limit = get_or configured 0 in
    if nat_beq limit 0 then physical else if ltb 0 physical then min limit physical else limit

abbrev pub variable : ServerRecord → String → String
variable server name = get_or (get name (get_or server.variables [])) ""

unfoldable pub allocated_server_storage : (String → ℕ) → ServerRecord → ℕ
allocated_server_storage number server =
    let megabytes = variable server "AGAPORNIS_SWAP_MEMORY_MB" in
    let swap = if is_empty megabytes then 0 else number megabytes * 1024 * 1024 in
    let general = variable server "AGAPORNIS_SWAP_MEMORY_STORAGE" == "general" in
    get_or server.disk_limit_bytes 0 + (if general then swap else 0)

abbrev pub memory_of : ServerRecord → ℕ
memory_of server = get_or server.memory_bytes 0

-- The sum that `reduce` takes.
unfoldable pub sum_of : (ServerRecord → ℕ) → List ServerRecord → ℕ
sum_of amount [] = 0
sum_of amount (r ∷ rs) = amount r + sum_of amount rs

abbrev pub takes_room : String → ServerRecord → Bool
takes_room on_node server = server.node_id == on_node && not (server.status == "deleting")

unfoldable pub allocation_for : Fleet → Agent → ℕ → ℕ → Allocation
unfolding sum_of allocated_server_storage effective_limit
allocation_for fleet agent memory_total disk_total =
    let servers = filter (takes_room agent.node_id) (values fleet.registry.servers) in
    let memory = sum_of memory_of servers in
    let disk = sum_of (allocated_server_storage fleet.number) servers in
    let more_memory = get_or agent.memory_overallocation_bytes 0 in
    let more_disk = get_or agent.disk_overallocation_bytes 0 in
    let memory_limit = effective_limit agent.memory_limit_bytes memory_total in
    let disk_limit = effective_limit agent.disk_limit_bytes disk_total in
    record {
      memory_physical_bytes = memory_total;
      memory_base_limit_bytes = memory_limit;
      memory_overallocation_bytes = more_memory;
      memory_capacity_bytes = memory_limit + more_memory;
      memory_allocated_bytes = memory;
      memory_available_bytes = memory_limit + more_memory - memory;
      disk_physical_bytes = disk_total;
      disk_base_limit_bytes = disk_limit;
      disk_overallocation_bytes = more_disk;
      disk_capacity_bytes = disk_limit + more_disk;
      disk_allocated_bytes = disk;
      disk_available_bytes = disk_limit + more_disk - disk;
      server_count = length servers;
    }

-- `new Map(liveRows.map(row => [row.nodeId, row]))`
unfoldable pub by_node_id : List (String × StatsRow) → List StatsRow → List (String × StatsRow)
by_node_id m [] = m
by_node_id m (row ∷ rows) = by_node_id (set row.node_id row m) rows

abbrev pub no_stats : StatsRow
no_stats = record {
  node_id = "";
  healthy = false;
  memory_usage_bytes = none;
  memory_total_bytes = none;
  disk_total_bytes = none;
}

abbrev pub stats_of : Fleet → Agent → StatsRow
stats_of fleet agent = get_or (get agent.node_id (by_node_id [] fleet.live_rows)) no_stats

unfoldable pub snapshot : Fleet → Agent → Snapshot
unfolding allocation_for port_capacity used_ports by_node_id utilization
snapshot fleet agent =
    let row = stats_of fleet agent in
    let usage = get_or row.memory_usage_bytes 0 in
    let memory_total = get_or row.memory_total_bytes 0 in
    let disk_total = get_or row.disk_total_bytes 0 in
    let start = get_or agent.port_range_start 0 in
    let end = get_or agent.port_range_end 0 in
    let used = used_ports fleet.json fleet.registry fleet.databases agent.node_id in
    record {
      agent = agent;
      healthy = row.healthy && ltb 0 memory_total && ltb 0 disk_total;
      memory_usage_bytes = usage;
      memory_total_bytes = memory_total;
      memory_available_bytes = memory_total - usage;
      utilization = utilization usage memory_total;
      port_range_start = start;
      port_range_end = end;
      port_capacity = port_capacity used start end;
      allocation = allocation_for fleet agent memory_total disk_total;
    }
