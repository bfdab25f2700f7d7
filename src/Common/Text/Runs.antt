-- ===== src/Common/Text/Runs.antt =====
-- `s.replace(/[...]+/g, c)`: each longest run of characters outside a set becomes one character.
use Prim.Native.Char.{Char}
use Prim.Native.String.{String, [], ◌∷◌}
use mathlib.Core.Path.{◌≡◌, refl}
use mathlib.Core.Bool.{Bool, true, false, not}
use native.Mathlib.Omega.{arith}
use agapornis_api.Common.Tests.{if◌then◌else◌}
use agapornis_api.Common.Text.{any_char}

module _ (keep : Char → Bool) (c : Char) where
  -- `inside` says that the run under way has been written.
  replace_from : Bool → String → String
  replace_from inside [] = []
  replace_from inside (d ∷ s) =
      let kept = d ∷ replace_from false s in
      let rest = replace_from true s in if keep d then kept else if inside then rest else c ∷ rest

  unfoldable pub replace_runs : String → String
  unfolding replace_from
  replace_runs s = replace_from false s

  any_char-replace_from :
      (inside : Bool) (s : String)
      → keep c ≡ true
      → any_char (λ d. not (keep d)) (replace_from inside s) ≡ false
  unfolding any_char replace_from
  any_char-replace_from inside [] h = refl
  any_char-replace_from inside (d ∷ s) h =
      ground (arith, any_char-replace_from true s h, any_char-replace_from false s h)

  -- Only characters that are kept are left.
  pub any_char-replace_runs :
      (s : String) → keep c ≡ true → any_char (λ d. not (keep d)) (replace_runs s) ≡ false
  unfolding replace_runs
  any_char-replace_runs s h = any_char-replace_from false s h

-- `s.replace(/p+/g, '')`
unfoldable pub remove_chars : (Char → Bool) → String → String
remove_chars p [] = []
remove_chars p (c ∷ s) = let rest = remove_chars p s in if p c then rest else c ∷ rest
