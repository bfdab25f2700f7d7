-- ===== src/Common/Text/Trims.antt =====
-- A text that was trimmed is not changed by `trim`.
use Prim.Native.String.{String, [], ◌∷◌}
use mathlib.Core.Path.{◌≡◌, refl}
use mathlib.Core.Bool.{Bool, true, not}
use native.Mathlib.Omega.{arith}
use agapornis_api.Common.Text.{trim, trim_start, trim_end, is_space, is_empty}

-- The text does not start with white space.
starts_plain : String → Bool
starts_plain [] = true
starts_plain (c ∷ s) = not (is_space c)

trim_start-starts_plain : (s : String) → starts_plain (trim_start s) ≡ true
unfolding trim_start starts_plain
trim_start-starts_plain [] = refl
trim_start-starts_plain (c ∷ s) = ground (arith, trim_start-starts_plain s)

trim_start_plain : (s : String) → starts_plain s ≡ true → trim_start s ≡ s
unfolding trim_start starts_plain
trim_start_plain [] h = refl
trim_start_plain (c ∷ s) h = ground arith

trim_end-starts_plain : (s : String) → starts_plain s ≡ true → starts_plain (trim_end s) ≡ true
unfolding trim_end starts_plain
trim_end-starts_plain [] h = refl
trim_end-starts_plain (c ∷ s) h = ground arith

trim_end_idempotent : (s : String) → trim_end (trim_end s) ≡ trim_end s
unfolding trim_end
trim_end_idempotent [] = refl
trim_end_idempotent (c ∷ s) = ground (arith, trim_end_idempotent s)

pub trim_idempotent : (s : String) → trim (trim s) ≡ trim s
unfolding trim
trim_idempotent s = ground (
  arith,
  trim_start_plain (trim_end (trim_start s))
      (trim_end-starts_plain (trim_start s) (trim_start-starts_plain s)),
  trim_end_idempotent (trim_start s),
)

pub is_empty-trim : (s : String) → is_empty s ≡ true → is_empty (trim s) ≡ true
unfolding trim trim_start trim_end
is_empty-trim [] h = refl
is_empty-trim (c ∷ s) h = absurd (ground arith)
