-- ===== src/Placement/Quotient/Rounding.antt =====
-- The rounding of the quotient.
use Prim.Native.Nat.{◌≤◌, ◌<◌}
use agapornis_api.Common.{ℕ, zero, suc, ◌+◌, ◌*◌, ◌≡◌, ◌⊎◌}
use agapornis_api.Placement.Quotient.{mantissas}

pub data IsPower : ℕ → Type 0 where
  once : IsPower 1
  twice : {u : ℕ} → IsPower u → IsPower (2 * u)

-- The doublings are enough for the dividend.
abbrev Reaches : ℕ → ℕ → ℕ → Type 0
Reaches zero d n = n < d * mantissas
Reaches (suc fuel) d n = Reaches fuel (2 * d) n

-- `value` counts units of the quotient of `n` by `b`, to the nearest of a spacing.
abbrev IsNearest : ℕ → ℕ → ℕ → Type 0
IsNearest n b value =
    (unit : ℕ) × IsPower unit
    × (n < b * unit * mantissas)
    × ((unit ≡ 1) ⊎ (b * unit * mantissas ≤ 2 * n))
    × (2 * (value * b) ≤ 2 * n + b * unit)
    × (2 * n ≤ 2 * (value * b) + b * unit)
