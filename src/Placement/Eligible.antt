-- ===== src/Placement/Eligible.antt =====
-- Which nodes the ranking holds, and in which order.
pub mod Fused
use native.Mathlib.Omega.{arith}
use mathlib.Core.List.{Perm}
use mathlib.Core.List.Perm
use Prim.Native.Nat.{◌*◌, ◌≤◌}
use agapornis_api.Common.{
  String, Bool, true, false, ◌≡◌, refl, sym, ap, ◌∙◌, subst, ◌⊎◌, inl, inr, ◌↔◌, Option, none, some,
  List, [], ◌∷◌, map, All, filter, any, Bool-cases, Result, ok, err, is_ok, is_nil, not,
}
use agapornis_api.Common.Sorting.{
  sort_by, sort_by-perm, sort_by-IsOrdered, IsOrdered, is_nil-sort_by, sort_by-All, All-sort_by,
}
use agapornis_api.Placement.Records.{Fleet, Agent, Snapshot, PlacementDecision, PlacementError}
use agapornis_api.Placement.Ranking.{Wanted, decision, rank, select, before}
use agapornis_api.Placement.Allocations.{snapshot}
use agapornis_api.Placement.Order.{IsBetter, UsesLess, before_total, first_least}
use agapornis_api.Placement.Eligible.Fused.{
  serves, eligible, ranked, rank_lem, ranked_lem, is_usable,
}

any-eligible :
    (fleet : Fleet) (w : Wanted) (xs : List Agent)
    → any (serves fleet w) xs ≡ not (is_nil (map (snapshot fleet) (filter (serves fleet w) xs)))
any-eligible fleet w [] = refl
any-eligible fleet w (a ∷ xs) = ground (arith, any-eligible fleet w xs)

-- A ranking is given exactly when some registered node serves the request, and then it holds the
-- nodes that do, each as often as it is registered, and no others.
pub rank_exact :
    (fleet : Fleet) (w : Wanted)
    → (is_ok (rank fleet w) ≡ any (serves fleet w) fleet.agents)
      × ((ds : List PlacementDecision)
          → rank fleet w ≡ ok ds
          → Perm ds (map decision (eligible fleet w)))
rank_exact fleet w =
    let le = before fleet.locale_le in
    let sorted = ranked_lem fleet w in
    let some' = any-eligible fleet w fleet.agents in
    let none' = is_nil-sort_by le (eligible fleet w) in
    elim (rank_lem fleet w) [
      | inl (s, rest, there, good) ↦ (
        ground arith,
        λ ds h.
            let same : map decision (ranked fleet w) ≡ ds = ground arith in
            subst (λ x. Perm x (map decision (eligible fleet w))) same
              (subst (λ x. Perm (map decision x) (map decision (eligible fleet w))) (sym sorted)
                (Perm.map decision (sort_by-perm le (eligible fleet w)))),
      )
      | inr (e, gone, bad) ↦ (ground arith, λ ds h. absurd (ground arith))
    ]

All-eligible :
    (P : Snapshot → Type 0) (fleet : Fleet) (w : Wanted) (xs : List Agent)
    → All P (map (snapshot fleet) (filter (serves fleet w) xs))
    → All (λ a. serves fleet w a ≡ true → P (snapshot fleet a)) xs
All-eligible P fleet w [] h = tt
All-eligible P fleet w (a ∷ xs) h = elim (Bool-cases (serves fleet w a)) [
  | inl yes' ↦
      let (p, rest) : P (snapshot fleet a)
          × All P (map (snapshot fleet) (filter (serves fleet w) xs)) =
        ground (arith, h) in
      (λ _. p, All-eligible P fleet w xs rest)
  | inr no' ↦ ((λ q. absurd (ground arith)), All-eligible P fleet w xs (ground (arith, h)))
]

-- What a selection is made from.
pub select_lem :
    (fleet : Fleet) (w : Wanted) (d : PlacementDecision)
    → select fleet w ≡ ok (some d)
    → (s : Snapshot) × (rest : List Snapshot) × (sort_by (before fleet.locale_le) (eligible fleet w)
        ≡ s ∷ rest)
      × (decision s ≡ d)
unfolding select
select_lem fleet w d h = elim (rank_lem fleet w) [
  | inl (s, rest, there, good) ↦ (s, rest, sym (ranked_lem fleet w) ∙ there, ground arith)
  | inr (e, gone, bad) ↦ absurd (ground arith)
]

-- If `localeCompare` is a total order, then of the registered nodes that serve the request, the one
-- that is selected has the least utilization, the quotient of used and total memory as a double, and
-- no less memory available than any of the same utilization.
pub select_least :
    (fleet : Fleet) (w : Wanted) (d : PlacementDecision)
    → ((x y : String) → fleet.locale_le x y ≡ false → fleet.locale_le y x ≡ true)
    → select fleet w ≡ ok (some d)
    → All
        (λ a.
          serves fleet w a ≡ true
          → IsBetter d.memory_utilization d.memory_available_bytes
              (snapshot fleet a).utilization
              (snapshot fleet a).memory_available_bytes)
        fleet.agents
unfolding decision
select_least fleet w d total h =
    let le = before fleet.locale_le in
    let (s, rest, sorted, chosen) = select_lem fleet w d h in
    let ordered = sort_by-IsOrdered le (before_total fleet.locale_le total) (eligible fleet w) in
    let least = first_least fleet.locale_le s rest (subst (IsOrdered le) sorted ordered) in
    let all : All (UsesLess s) (eligible fleet w) =
      sort_by-All le (UsesLess s) (eligible fleet w)
        (subst (All (UsesLess s)) (sym sorted) (inr (refl, omega arith), least)) in
    subst
      (λ (x : PlacementDecision).
        All
          (λ a.
            serves fleet w a ≡ true
            → IsBetter x.memory_utilization x.memory_available_bytes (snapshot fleet a).utilization
                (snapshot fleet a).memory_available_bytes)
          fleet.agents)
      chosen (All-eligible (UsesLess s) fleet w fleet.agents all)
