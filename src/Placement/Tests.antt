-- ===== src/Placement/Tests.antt =====
-- Placement at a concrete fleet of two nodes.
use mathlib.Core.List.{Perm}
use Prim.Native.Nat.{◌^◌}
use agapornis_api.Common.{
  true, false, ◌≡◌, refl, none, some, List, [], ◌∷◌, map, All, any, ok, is_ok, string_eq,
}
use agapornis_api.Registry.Types.{ServerRecord}
use agapornis_api.Common.Dict.{get, set}
use agapornis_api.Registry.Tests.{lobby}
use agapornis_api.Placement.Records.{Agent, StatsRow, Fleet, PlacementDecision}
use agapornis_api.Placement.Quotient.{utilization}
use agapornis_api.Placement.Order.{IsBetter}
use agapornis_api.Placement.Ranking.{Wanted, rank, select, decision}
use agapornis_api.Placement.Allocations.{snapshot}
use agapornis_api.Placement.Eligible.{rank_exact, select_least}
use agapornis_api.Placement.Eligible.Fused.{serves, eligible}

abbrev berlin : Agent
berlin = record {
  node_id = "n1";
  location = some " Berlin ";
  port_range_start = some 25565;
  port_range_end = some 25570;
  memory_overallocation_bytes = none;
  memory_limit_bytes = none;
  disk_limit_bytes = some 9000;
  disk_overallocation_bytes = none;
  maintenance_mode = false;
}

abbrev other : Agent
other = record berlin { node_id = "n2" }

abbrev busy_row : StatsRow
busy_row = record {
  node_id = "n1";
  healthy = true;
  memory_usage_bytes = some 3000;
  memory_total_bytes = some 4000;
  disk_total_bytes = some 10000;
}

abbrev calm_row : StatsRow
calm_row = record busy_row { node_id = "n2"; memory_usage_bytes = some 1000 }

abbrev fleet : Fleet
fleet = record {
  agents = berlin ∷ other ∷ [];
  live_rows = busy_row ∷ calm_row ∷ [];
  registry = record { servers = ("s1", lobby) ∷ []; file = none; removed = [] };
  databases = [];
  json = record { parse = λ s. none; above_zero = λ s. false };
  number = λ s. 0;
  locale_le = λ x y. true;
}

abbrev wanted : Wanted
wanted = record { memory_bytes = 2048; disk_bytes = 5000; location = some "berlin"; node_id = none }

abbrev chosen : PlacementDecision
chosen = record {
  node_id = "n2";
  memory_utilization = utilization 1000 4000;
  memory_usage_bytes = 1000;
  memory_total_bytes = 4000;
  memory_available_bytes = 3000;
  location = "berlin";
  port_range_start = 25565;
  port_range_end = 25570;
  available_ports = 6;
  disk_available_bytes = 9000;
  maintenance_mode = false;
}

selecting : select fleet wanted ≡ ok (some chosen)
unfolding select get set utilization
selecting = refl

rank_exact_example :
    (is_ok (rank fleet wanted) ≡ any (serves fleet wanted) fleet.agents)
    × ((ds : List PlacementDecision)
        → rank fleet wanted ≡ ok ds
        → Perm ds (map decision (eligible fleet wanted)))
rank_exact_example = rank_exact fleet wanted

select_least_example :
    All
      (λ a.
        serves fleet wanted a ≡ true
        → IsBetter chosen.memory_utilization chosen.memory_available_bytes
            (snapshot fleet a).utilization
            (snapshot fleet a).memory_available_bytes)
      fleet.agents
select_least_example = select_least fleet wanted chosen (λ x y h. refl) selecting

-- Two shares that differ, but not as doubles.
shares_tie : utilization 295773562880 549755687936 ≡ utilization 147884299264 274873230336
unfolding utilization
shares_tie = refl

quarter : utilization 1000 4000 ≡ 2 ^ 126
unfolding utilization
quarter = refl

abbrev new_server : ServerRecord
new_server = record lobby {
  id = "s2";
  node_id = "n2";
  memory_bytes = some 2048;
  disk_limit_bytes = some 5000;
}
