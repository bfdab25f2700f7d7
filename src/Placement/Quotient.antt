-- ===== src/Placement/Quotient.antt =====
-- The quotient of two whole numbers below 2^53 as a double, of the language's `/`, which
-- server-placement.service.ts takes of the used and the total memory. A double is counted in units
-- of 2^-128, of which every such quotient is a whole number.
pub mod Rounding
use agapornis_api.Common.{ℕ, zero, suc, ◌+◌, ◌*◌, ◌/◌, ◌%◌, ◌||◌, ◌&&◌, if◌then◌else◌, nat_beq, ltb}
use Prim.Native.Nat.{◌^◌}

-- 2^53: a double has that many mantissas.
abbrev pub mantissas : ℕ
mantissas = 9007199254740992

-- The least power of two, from `unit` on, that the mantissas take up to `dividend / divisor`.
unfoldable pub spacing : ℕ → ℕ → ℕ → ℕ → ℕ
spacing zero dividend divisor unit = unit
spacing (suc fuel) dividend divisor unit =
    let coarser = spacing fuel dividend divisor (2 * unit) in
    if ltb dividend (divisor * unit * mantissas) then unit else coarser

-- The nearest multiple of `unit`, and of two that are as near the even one.
unfoldable pub nearest : ℕ → ℕ → ℕ → ℕ
nearest dividend divisor unit =
    let q = dividend / (divisor * unit) in
    let r = 2 * (dividend % (divisor * unit)) in
    let up = ltb (divisor * unit) r || nat_beq r (divisor * unit) && nat_beq (q % 2) 1 in
    (if up then q + 1 else q) * unit

-- A quotient is less than 2^53, that is 2^181 units, so that 256 doublings are enough.
unfoldable pub quotient : ℕ → ℕ → ℕ
unfolding spacing nearest
quotient a b = let n = a * 2 ^ 128 in nearest n b (spacing 256 n b 1)

-- `Number.POSITIVE_INFINITY`: a number above every quotient.
abbrev pub infinity : ℕ
infinity = 2 ^ 1152

unfoldable pub utilization : ℕ → ℕ → ℕ
unfolding quotient
utilization usage total = if ltb 0 total then quotient usage total else infinity
