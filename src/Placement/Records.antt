-- ===== src/Placement/Records.antt =====
-- The records of server-placement.service.ts, and what it reads of the agents and of their statistics.
use agapornis_api.Common.{ℕ, String, Bool, Option, List, string_eq}
use agapornis_api.Registry.Store.{Store}
use agapornis_api.Registry.Ports.{DatabaseRow, PortCapacity}
use agapornis_api.Registry.Ports.Mappings.{Json}

-- What placement reads of an `AgentEntry`.
pub record Agent : Type 0 where
  pub node_id : String
  pub location : Option String
  pub port_range_start : Option ℕ
  pub port_range_end : Option ℕ
  pub memory_overallocation_bytes : Option ℕ
  pub memory_limit_bytes : Option ℕ
  pub disk_limit_bytes : Option ℕ
  pub disk_overallocation_bytes : Option ℕ
  pub maintenance_mode : Bool

-- What it reads of a `NodeStatsRow`; a value that is no number above 0 is `none`.
pub record StatsRow : Type 0 where
  pub node_id : String
  pub healthy : Bool
  pub memory_usage_bytes : Option ℕ
  pub memory_total_bytes : Option ℕ
  pub disk_total_bytes : Option ℕ

pub record Fleet : Type 0 where
  pub agents : List Agent
  pub live_rows : List StatsRow
  pub registry : Store
  pub databases : List DatabaseRow
  pub json : Json
  pub number : String → ℕ
  pub locale_le : String → String → Bool

pub record Allocation : Type 0 where
  pub memory_physical_bytes : ℕ
  pub memory_base_limit_bytes : ℕ
  pub memory_overallocation_bytes : ℕ
  pub memory_capacity_bytes : ℕ
  pub memory_allocated_bytes : ℕ
  pub memory_available_bytes : ℕ
  pub disk_physical_bytes : ℕ
  pub disk_base_limit_bytes : ℕ
  pub disk_overallocation_bytes : ℕ
  pub disk_capacity_bytes : ℕ
  pub disk_allocated_bytes : ℕ
  pub disk_available_bytes : ℕ
  pub server_count : ℕ

-- `utilization` is a double, in the units of Placement.Quotient.
pub record Snapshot : Type 0 where
  pub agent : Agent
  pub healthy : Bool
  pub memory_usage_bytes : ℕ
  pub memory_total_bytes : ℕ
  pub memory_available_bytes : ℕ
  pub utilization : ℕ
  pub port_range_start : ℕ
  pub port_range_end : ℕ
  pub port_capacity : PortCapacity
  pub allocation : Allocation

-- `algorithm` is always the same text.
pub record PlacementDecision : Type 0 where
  pub node_id : String
  pub memory_utilization : ℕ
  pub memory_usage_bytes : ℕ
  pub memory_total_bytes : ℕ
  pub memory_available_bytes : ℕ
  pub location : String
  pub port_range_start : ℕ
  pub port_range_end : ℕ
  pub available_ports : ℕ
  pub disk_available_bytes : ℕ
  pub maintenance_mode : Bool

pub data PlacementError : Type 0 where
  no_agents no_location not_in_location not_registered : PlacementError
  all_in_maintenance no_port_range ports_in_use no_room none_healthy : PlacementError
