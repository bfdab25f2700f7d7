-- ===== src/Registry/Ports/Free.antt =====
-- The ports that `allocateRandomPort` chooses from and the one that it chooses.
use mathlib.Core.Path.{subst}
use agapornis_api.Common.{
  ℕ, zero, suc, ◌+◌, ◌≤◌, ◌<◌, min, max, false, some, List, [], ◌∷◌, string_eq, nat_eq, contains,
  length, ok, ◌≡◌, refl, inl, inr, Bool-cases, arith, All,
}
use agapornis_api.Registry.Ports.{free_from, rounds, get_elem?, allocate_random_port, count_used}

-- A free port of the range.
abbrev pub IsFree : List ℕ → ℕ → ℕ → ℕ → Type 0
IsFree used lo n p = (lo ≤ p) × (p < lo + n) × (contains used p ≡ false)

All-weaken :
    (used : List ℕ) (lo n : ℕ) (xs : List ℕ)
    → All (IsFree used (lo + 1) n) xs
    → All (IsFree used lo (suc n)) xs
All-weaken used lo n [] h = tt
All-weaken used lo n (x ∷ xs) (h, hs) =
    ((omega arith, omega arith, h.2), All-weaken used lo n xs hs)

pub free_from-IsFree : (used : List ℕ) (n lo : ℕ) → All (IsFree used lo n) (free_from used n lo)
unfolding free_from
free_from-IsFree used zero lo = tt
free_from-IsFree used (suc n) lo =
    let rest =
      All-weaken used lo n (free_from used n (lo + 1)) (free_from-IsFree used n (lo + 1)) in
    elim (Bool-cases (contains used lo)) [
      | inl busy ↦ rw busy rest
      | inr free ↦ rw free ((omega arith, omega arith, free), rest)
    ]

pub get_elem?-All :
    (P : ℕ → Type 0) (xs : List ℕ) (i : ℕ) (p : ℕ) → All P xs → get_elem? xs i ≡ some p → P p
get_elem?-All P [] i p h e = absurd (ground arith)
get_elem?-All P (x ∷ xs) zero p (h, hs) e = let same : x ≡ p = ground arith in subst P same h
get_elem?-All P (x ∷ xs) (suc i) p (h, hs) e = get_elem?-All P xs i p hs e

pub get_elem?-some : (xs : List ℕ) (i : ℕ) → i < length xs → (p : ℕ) × (get_elem? xs i ≡ some p)
get_elem?-some [] i h = elim h [ ]
get_elem?-some (x ∷ xs) zero h = (x, refl)
get_elem?-some (x ∷ xs) (suc i) h = get_elem?-some xs i (omega arith)

-- The busy ports and the free ones make up the range.
pub count_used-free_from :
    (used : List ℕ) (n lo : ℕ) → count_used used n lo + length (free_from used n lo) ≡ n
unfolding count_used free_from
count_used-free_from used zero lo = refl
count_used-free_from used (suc n) lo = ground (arith, count_used-free_from used n (lo + 1))

-- The port that `allocateRandomPort` gives lies in the range, is above 0 and is not in use.
pub allocate_random_port_sound :
    (draw : ℕ → ℕ) (used : List ℕ) (start end p : ℕ)
    → allocate_random_port draw used start end ≡ ok p
    → (0 < p) × (min start end ≤ p) × (p ≤ max start end) × (contains used p ≡ false)
unfolding allocate_random_port
allocate_random_port_sound draw used start end p h =
    let lo = min start end in
    let n = rounds lo (max start end) in
    let free =
      get_elem?-All (IsFree used lo n) (free_from used n lo) (draw (length (free_from used n lo))) p
        (free_from-IsFree used n lo) in
    let at : get_elem? (free_from used n lo) (draw (length (free_from used n lo))) ≡ some p =
      ground arith in
    let facts = free at in
    let positive : 0 < lo = ground arith in (omega arith, facts.0, omega arith, facts.2)
