-- ===== src/Placement/Rooms.antt =====
-- The room that a selected node has left.
use agapornis_api.Common.{Bool, true, ◌&&◌, ◌≡◌, List, any, ◌==◌, string_eq, leb}
use agapornis_api.Registry.Types.{ServerRecord}
use agapornis_api.Registry.Store.{upsert}
use agapornis_api.Placement.Records.{Fleet, Agent, Snapshot}
use agapornis_api.Placement.Ranking.{Wanted}
use agapornis_api.Placement.Allocations.{snapshot}

-- The fleet once the server is registered.
abbrev pub with_server : Fleet → ServerRecord → Fleet
with_server fleet r = record fleet { registry = upsert fleet.registry r }

-- What the servers on the node are given is within its capacity.
abbrev pub within : Fleet → Agent → Bool
within fleet a =
    let given = (snapshot fleet a).allocation in
    leb given.memory_allocated_bytes given.memory_capacity_bytes
    && leb given.disk_allocated_bytes given.disk_capacity_bytes

module _ (fleet : Fleet) (w : Wanted) (r : ServerRecord) where
  -- Some registered node is the server's, and within its capacity once the server is there.
  abbrev IsPlaced : List Agent → Type 0
  IsPlaced xs = any (λ a. a.node_id == r.node_id && within (with_server fleet r) a) xs ≡ true

  abbrev Takes : List Agent → Snapshot → Type 0
  Takes xs s = r.node_id ≡ s.agent.node_id → IsPlaced xs
