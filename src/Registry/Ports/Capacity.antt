-- ===== src/Registry/Ports/Capacity.antt =====
-- `portCapacity` against what `allocateRandomPort` can do.
use agapornis_api.Common.{
  ℕ, ◌+◌, ◌-◌, ◌≤◌, ◌<◌, min, max, true, false, List, nat_beq, length, ok, err, ◌≡◌, ◌⊎◌, inl, inr,
  Bool-cases, arith,
}
use agapornis_api.Registry.Ports.{
  none_available, free_from, rounds, allocate_random_port, port_capacity,
}
use agapornis_api.Registry.Ports.Free.{get_elem?-some, count_used-free_from}

-- In a valid range the used and the available ports make up the total.
pub port_capacity_accounts :
    (used : List ℕ) (start end : ℕ)
    → 1 ≤ min start end
    → max start end ≤ 65535
    → let c = port_capacity used start end in
      (c.used + c.available ≡ c.total)
      × (c.total ≡ max start end + 1 - min start end)
      × (c.available ≡ length (free_from used c.total (min start end)))
unfolding port_capacity
port_capacity_accounts used start end low high =
    let lo = min start end in
    let n = rounds lo (max start end) in
    let same : max start end - lo + 1 ≡ n = omega arith in
    ground (arith, count_used-free_from used n lo, same)

exhausted-port_capacity :
    (used : List ℕ) (start end : ℕ)
    → 1 ≤ min start end
    → max start end ≤ 65535
    → (port_capacity used start end).exhausted
      ≡ nat_beq (length (free_from used (rounds (min start end) (max start end)) (min start end))) 0
unfolding port_capacity
exhausted-port_capacity used start end low high =
    let lo = min start end in
    let n = rounds lo (max start end) in
    let same : max start end - lo + 1 ≡ n = omega arith in
    ground (arith, count_used-free_from used n lo, same)

-- In a valid range and with a fair draw, `allocateRandomPort` gives a port if `portCapacity` does
-- not report the range exhausted, and fails for want of a port if it does.
pub allocate_random_port_total :
    (draw : ℕ → ℕ) (used : List ℕ) (start end : ℕ)
    → ((n : ℕ) → 0 < n → draw n < n)
    → 1 ≤ min start end
    → max start end ≤ 65535
    → ((p : ℕ) × ((port_capacity used start end).exhausted ≡ false)
        × (allocate_random_port draw used start end ≡ ok p))
      ⊎ (((port_capacity used start end).exhausted ≡ true)
          × (allocate_random_port draw used start end ≡ err none_available))
unfolding allocate_random_port
allocate_random_port_total draw used start end fair low high =
    let free = free_from used (rounds (min start end) (max start end)) (min start end) in
    let told = exhausted-port_capacity used start end low high in
    elim (Bool-cases (nat_beq (length free) 0)) [
      | inl gone ↦ inr (rw told gone, ground arith)
      | inr some_left ↦
          let (p, at) =
            get_elem?-some free (draw (length free)) (fair (length free) (ground arith)) in
          inl (p, rw told some_left, ground (arith, at))
    ]
