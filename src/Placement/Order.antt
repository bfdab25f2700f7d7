-- ===== src/Placement/Order.antt =====
-- The order of the ranking: used memory over total memory, then available memory.
use Prim.Native.Nat.{◌≤◌, ◌<◌}
use agapornis_api.Common.{ℕ, String, Bool, true, false, ◌≡◌, ◌⊎◌, arith, List, [], ◌∷◌, All}
use agapornis_api.Common.Sorting.{IsOrdered}
use agapornis_api.Placement.Records.{Snapshot}
use agapornis_api.Placement.Ranking.{before}

-- The first share is less, or it is the same and at least as much memory is available.
abbrev pub IsBetter : ℕ → ℕ → ℕ → ℕ → Type 0
IsBetter share available other_share other_available =
    (share < other_share) ⊎ ((share ≡ other_share) × (other_available ≤ available))

abbrev pub UsesLess : Snapshot → Snapshot → Type 0
UsesLess a b =
    IsBetter a.utilization a.memory_available_bytes b.utilization b.memory_available_bytes

pub UsesLess-trans : (a b c : Snapshot) → UsesLess a b → UsesLess b c → UsesLess a c
UsesLess-trans a b c p q = ground arith

module _ (locale_le : String → String → Bool) where
  pub before-UsesLess : (a b : Snapshot) → before locale_le a b ≡ true → UsesLess a b
  unfolding before
  before-UsesLess a b h = ground arith

  -- With a total order of the names, the comparison is total.
  pub before_total :
      ((x y : String) → locale_le x y ≡ false → locale_le y x ≡ true)
      → (a b : Snapshot) → before locale_le a b ≡ false
      → before locale_le b a ≡ true
  unfolding before
  before_total total a b h = ground (arith, total a.agent.node_id b.agent.node_id)

  -- The first of an ordered list is better than the rest of it.
  pub first_least :
      (s : Snapshot) (rest : List Snapshot)
      → IsOrdered (before locale_le) (s ∷ rest)
      → All (UsesLess s) rest
  first_least s [] o = tt
  first_least s (x ∷ xs) (here, o) =
      let least = before-UsesLess s x here in (least, passed xs (first_least x xs o))
    where
      passed : (ys : List Snapshot) → All (UsesLess x) ys → All (UsesLess s) ys
      passed [] k = tt
      passed (y ∷ ys) (k, ks) = (UsesLess-trans s x y (before-UsesLess s x here) k, passed ys ks)
