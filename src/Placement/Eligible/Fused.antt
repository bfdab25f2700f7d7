-- ===== src/Placement/Eligible/Fused.antt =====
-- The filters of the ranking as one test of a node.
use agapornis_api.Common.{
  Bool, true, ◌&&◌, ◌||◌, ◌≡◌, refl, ap, ◌∙◌, arith, inl, inr, ◌⊎◌, List, [], ◌∷◌, map, filter,
  filter-map, filter-filter, filter_if, Result-cases, is_nil, ok, err, if◌then◌else◌,
}
use agapornis_api.Common.Sorting.{sort_by}
use agapornis_api.Common.Text.{is_empty}
use agapornis_api.Placement.Records.{Fleet, Agent, Snapshot, PlacementError}
use agapornis_api.Placement.Ranking.{
  Wanted, decision, rank, before, wanted_node, at_location, has_node_id, is_healthy, is_active,
  has_memory, has_disk, has_ports, candidates, location_agents, candidate_agents, usable,
}
use agapornis_api.Placement.Allocations.{snapshot, normalize_location}

-- The node is at the location and has the id that are wanted, if any.
unfoldable pub is_wanted : Wanted → Agent → Bool
is_wanted w a =
    let location = normalize_location w.location in
    (is_empty location || at_location location a)
    && (is_empty (wanted_node w) || has_node_id (wanted_node w) a)

-- It is healthy, not in maintenance, and has the memory, the disk and a port.
unfoldable pub is_usable : Wanted → Snapshot → Bool
is_usable w s =
    (((is_healthy s && is_active s) && has_memory w.memory_bytes s) && has_disk w.disk_bytes s)
    && has_ports s

unfoldable pub serves : Fleet → Wanted → Agent → Bool
unfolding is_wanted is_usable
serves fleet w a = is_wanted w a && is_usable w (snapshot fleet a)

abbrev pub eligible : Fleet → Wanted → List Snapshot
eligible fleet w = map (snapshot fleet) (filter (serves fleet w) fleet.agents)

abbrev pub chosen_agents : Fleet → Wanted → List Agent
chosen_agents fleet w =
    candidate_agents (location_agents fleet.agents (normalize_location w.location)) (wanted_node w)

pub chosen_agents_lem :
    (fleet : Fleet) (w : Wanted) → chosen_agents fleet w ≡ filter (is_wanted w) fleet.agents
unfolding is_wanted
chosen_agents_lem fleet w =
    let location = normalize_location w.location in
    let id = wanted_node w in
    filter_if (is_empty id) (has_node_id id) (location_agents fleet.agents location)
    ∙ ap (filter (λ a. is_empty id || has_node_id id a))
        (filter_if (is_empty location) (at_location location) fleet.agents)
    ∙ filter-filter (λ a. is_empty id || has_node_id id a)
        (λ a. is_empty location || at_location location a) fleet.agents

usable_lem : (w : Wanted) (ss : List Snapshot) → usable w ss ≡ filter (is_usable w) ss
unfolding usable is_usable
usable_lem w [] = refl
usable_lem w (s ∷ ss) = ground (arith, usable_lem w ss)

pub usable-chosen :
    (fleet : Fleet) (w : Wanted)
    → usable w (map (snapshot fleet) (chosen_agents fleet w)) ≡ eligible fleet w
unfolding serves
usable-chosen fleet w =
    usable_lem w (map (snapshot fleet) (chosen_agents fleet w))
    ∙ filter-map (is_usable w) (snapshot fleet) (chosen_agents fleet w)
    ∙ ap (λ xs. map (snapshot fleet) (filter (λ a. is_usable w (snapshot fleet a)) xs))
        (chosen_agents_lem fleet w)
    ∙ ap (map (snapshot fleet))
        (filter-filter (λ a. is_usable w (snapshot fleet a)) (is_wanted w) fleet.agents)

-- The ranking's candidates, out of the agents.
pub ranked : Fleet → Wanted → List Snapshot
ranked fleet w = candidates fleet w (map (snapshot fleet) (chosen_agents fleet w))

pub ranked_lem :
    (fleet : Fleet) (w : Wanted)
    → ranked fleet w ≡ sort_by (before fleet.locale_le) (eligible fleet w)
unfolding ranked candidates
ranked_lem fleet w = ap (sort_by (before fleet.locale_le)) (usable-chosen fleet w)

is_nil-filter {ℓ} :
    {A : Type ℓ} (b : Bool) (p : A → Bool) (xs : List A)
    → is_nil xs ≡ true
    → is_nil (if b then xs else filter p xs) ≡ true
is_nil-filter b p [] h = ground arith
is_nil-filter b p (x ∷ xs) h = absurd (ground arith)

ranked_none :
    (fleet : Fleet) (w : Wanted)
    → is_nil (chosen_agents fleet w) ≡ true
    → is_nil (ranked fleet w) ≡ true
unfolding ranked candidates usable sort_by
ranked_none fleet w h = none_of (chosen_agents fleet w) h
  where
    none_of :
        (left : List Agent)
        → is_nil left ≡ true
        → is_nil (candidates fleet w (map (snapshot fleet) left)) ≡ true
    none_of [] k = refl
    none_of (a ∷ left) k = absurd (ground arith)

abbrev pub is_nil-cases {ℓ} :
    {A : Type ℓ} (xs : List A) → (xs ≡ []) ⊎ ((x : A) × (rest : List A) × (xs ≡ x ∷ rest))
is_nil-cases [] = inl refl
is_nil-cases (x ∷ rest) = inr (x, rest, refl)

-- A call either ranks a first candidate or throws, and then there is none.
pub rank_lem :
    (fleet : Fleet) (w : Wanted)
    → ((s : Snapshot) × (rest : List Snapshot) × (ranked fleet w ≡ s ∷ rest)
        × (rank fleet w ≡ ok (map decision (s ∷ rest))))
      ⊎ ((e : PlacementError) × (ranked fleet w ≡ []) × (rank fleet w ≡ err e))
unfolding rank ranked
rank_lem fleet w =
    let location = normalize_location w.location in
    let located = location_agents fleet.agents location in
    let no_agent = is_nil-filter (is_empty location) (at_location location) fleet.agents in
    let no_located =
      is_nil-filter (is_empty (wanted_node w)) (has_node_id (wanted_node w)) located in
    let no_chosen = ranked_none fleet w in
    elim (is_nil-cases (ranked fleet w)) [
      | inr (s, rest, e) ↦ inl (s, rest, e, ground (arith, no_agent, no_located, no_chosen))
      | inl e ↦ elim (Result-cases (rank fleet w)) [
        | inl (ds, k) ↦ absurd (ground arith)
        | inr (reason, k) ↦ inr (reason, e, k)
      ]
    ]
