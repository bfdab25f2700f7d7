-- ===== src/Plans/Fields.antt =====
-- The checks of a plan's fields in server-plans.service.ts. A number of a request is a fraction, or
-- else below 0 or no finite number.
use Prim.Native.Char.{Char, code}
use agapornis_api.Common.{
  ℕ, ◌+◌, ◌*◌, ◌/◌, String, Bool, not, ◌&&◌, ◌||◌, Option, none, some, List, [], ◌∷◌, map,
  if◌then◌else◌, ◌==◌, string_eq, nat_beq, ltb, leb, get_or, dedupe, filter, Result, ok, err, ◌>>=◌,
  refuse_if,
}
use agapornis_api.Common.Dict.{set}
use agapornis_api.Common.Text.{
  trim, to_lower, to_upper, is_empty, is_char, is_space, split, strip, read_digits,
}
use agapornis_api.Common.Text.Runs.{replace_runs, remove_chars}
use agapornis_api.Registry.Types.{Variables}
use agapornis_api.Plans.Catalog.{Names, items, text}

-- `ratio n d` is n / (d + 1).
pub data Number : Type 0 where
  below_zero not_finite : Number
  ratio : ℕ → ℕ → Number

pub data PlanError : Type 0 where
  id_required already_exists not_found bad_threads bad_thread_range swap_over_disk : PlanError
  required not_above_zero not_zero_or_above : String → PlanError

-- `Math.round`
unfoldable pub rounded : ℕ → ℕ → ℕ
rounded n d = (2 * n + (d + 1)) / (2 * (d + 1))

-- `a || default`; a missing value is no number.
abbrev pub or_default : Option Number → ℕ → Number
or_default none default = ratio default 0
or_default (some below_zero) default = below_zero
or_default (some not_finite) default = not_finite
or_default (some (ratio n d)) default = if nat_beq n 0 then ratio default 0 else ratio n d

unfoldable pub positive_number : Number → String → Result PlanError ℕ
positive_number below_zero field = err (not_above_zero field)
positive_number not_finite field = err (not_above_zero field)
positive_number (ratio n d) field =
    if nat_beq n 0 then err (not_above_zero field) else ok (rounded n d)

unfoldable pub non_negative_number : Number → String → Result PlanError ℕ
non_negative_number below_zero field = err (not_zero_or_above field)
non_negative_number not_finite field = err (not_zero_or_above field)
non_negative_number (ratio n d) field = ok (rounded n d)

unfoldable pub required_string : Option String → String → Result PlanError String
required_string value field =
    let t = trim (get_or value "") in if is_empty t then err (required field) else ok t

abbrev between : ℕ → ℕ → Char → Bool
between lo hi c = leb lo (code c) && leb (code c) hi

-- `[a-z0-9_-]`
abbrev pub is_id_char : Char → Bool
is_id_char c = between b'a' b'z' c || between b'0' b'9' c || is_char b'_' c || is_char b'-' c

unfoldable pub plan_id : String → Result PlanError String
plan_id value =
    let id = strip (is_char b'-') (replace_runs is_id_char "-" (to_lower (trim value))) in
    if is_empty id then err id_required else ok id

pub data SwapStorage : Type 0 where
  server general : SwapStorage

unfoldable pub swap_storage : Option String → SwapStorage
unfolding to_lower
swap_storage value = if to_lower (get_or value "") == "server" then server else general

-- `/^\d+(?:-\d+)?$/` with the two numbers.
abbrev range_of : List String → Option (ℕ × ℕ)
range_of (a ∷ []) = elim (read_digits a) [ none ↦ none | some n ↦ some (n, n) ]
range_of (a ∷ (b ∷ [])) = elim (read_digits a) [
  | none ↦ none
  | some n ↦ elim (read_digits b) [ none ↦ none | some m ↦ some (n, m) ]
]
range_of _ = none

unfoldable pub check_segment : String → Result PlanError (Unit {0})
unfolding split read_digits
check_segment segment = elim (range_of (split "-" segment)) [
  | none ↦ err bad_threads
  | some (start, end) ↦ refuse_if (ltb end start) bad_thread_range
]

unfoldable pub check_segments : List String → Result PlanError (Unit {0})
unfolding check_segment
check_segments [] = ok tt
check_segments (x ∷ xs) = check_segment x >>= λ _. check_segments xs

unfoldable pub pinned_threads : Option String → Result PlanError String
unfolding check_segments remove_chars
pinned_threads value =
    let threads = remove_chars is_space (get_or value "") in
    let checked = check_segments (split "," threads) >>= λ _. ok threads in
    if is_empty threads then ok "" else checked

abbrev pub not_empty : String → Bool
not_empty s = not (is_empty s)

unfoldable pub external_ids : Option Names → List String
unfolding trim items
external_ids value = filter not_empty (map trim (items (get_or value (text ""))))

unfoldable pub allowed_egg_ids : Option Names → Option String → List String
allowed_egg_ids value primary_egg_id =
    let primary = trim (get_or primary_egg_id "") in
    let ids = filter not_empty (map trim (items (get_or value (text "")))) in
    dedupe (if is_empty primary then ids else primary ∷ ids)

unfoldable pub plan_variables : Variables → Variables → Variables
unfolding trim to_upper
plan_variables acc [] = acc
plan_variables acc ((key, val) ∷ vs) =
    let name = to_upper (trim key) in
    let kept = plan_variables (set name val acc) vs in
    let rest = plan_variables acc vs in if is_empty name then rest else kept

unfoldable pub normalize_location : Option String → String
unfolding trim to_lower
normalize_location value = to_lower (trim (get_or value ""))
