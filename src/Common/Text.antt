-- ===== src/Common/Text.antt =====
-- The string methods that the program calls. A `String` is a list of code points here.
pub mod Splits
pub mod Trims
pub mod Runs
use Prim.Native.Nat.{ℕ, ◌+◌, ◌-◌, ◌*◌}
use mathlib.Core.Path.{◌≡◌, refl}
use Prim.Native.Char.{Char, code}
use Prim.Native.String
use mathlib.Core.Option.{Option, none, some}
use mathlib.Core.List.{List, [], ◌∷◌}
use Prim.Native.String.{String, [], ◌∷◌}
use mathlib.Core.Bool.{Bool, true, false, ◌&&◌, ◌||◌}
use agapornis_api.Common.Tests.{leb, if◌then◌else◌, nat_beq, nat_eq}

unfoldable pub begins_with : String → String → Bool
begins_with [] s = true
begins_with (c ∷ t) [] = false
begins_with (c ∷ t) (d ∷ s) = let rest = begins_with t s in nat_beq (code c) (code d) && rest

-- `s.includes(t)`
unfoldable pub includes : String → String → Bool
unfolding begins_with
includes t [] = begins_with t []
includes t (c ∷ s) = begins_with t (c ∷ s) || includes t s

-- The white space and line ends that `trim` removes.
unfoldable pub is_space : Char → Bool
is_space c =
    let n = code c in
    leb 9 n && leb n 13
    || nat_beq n 32
    || nat_beq n 160
    || nat_beq n 5760
    || leb 8192 n && leb n 8202
    || nat_beq n 8232
    || nat_beq n 8233
    || nat_beq n 8239
    || nat_beq n 8287
    || nat_beq n 12288
    || nat_beq n 65279

abbrev pub is_empty : String → Bool
is_empty [] = true
is_empty (c ∷ s) = false

-- `s || other` of a text that may be missing.
abbrev pub text_or : Option String → String → String
text_or none other = other
text_or (some s) other = if is_empty s then other else s

-- `s || undefined`
abbrev pub not_blank : Option String → Option String
not_blank none = none
not_blank (some s) = if is_empty s then none else some s

unfoldable pub trim_start : String → String
trim_start [] = []
trim_start (c ∷ s) = let rest = trim_start s in if is_space c then rest else c ∷ s

unfoldable pub trim_end : String → String
trim_end [] = []
trim_end (c ∷ s) = let rest = trim_end s in if is_space c && is_empty rest then [] else c ∷ rest

-- `s.trim()`
unfoldable pub trim : String → String
unfolding is_space trim_start trim_end
trim s = trim_end (trim_start s)

-- `s.length`, in UTF-16 code units.
unfoldable pub text_length : String → ℕ
text_length [] = 0
text_length (c ∷ s) = (if leb 65536 (code c) then 2 else 1) + text_length s

-- The character of the second alphabet at the place that `c` has in the first.
swap_case : String → String → Char → Char
swap_case [] to c = c
swap_case (u ∷ us) [] c = c
swap_case (u ∷ us) (l ∷ ls) c =
    let rest = swap_case us ls c in if nat_beq (code u) (code c) then l else rest

abbrev upper : String
upper = "ABCDEFGHIJKLMNOPQRSTUVWXYZ"

abbrev lower : String
lower = "abcdefghijklmnopqrstuvwxyz"

map_chars : (Char → Char) → String → String
map_chars f [] = []
map_chars f (c ∷ s) = f c ∷ map_chars f s

-- `s.toLowerCase()` and `s.toUpperCase()` on ASCII letters.
unfoldable pub to_lower : String → String
unfolding swap_case map_chars
to_lower s = map_chars (swap_case upper lower) s

pub is_empty-to_lower : (s : String) → is_empty (to_lower s) ≡ is_empty s
unfolding to_lower
is_empty-to_lower [] = refl
is_empty-to_lower (c ∷ s) = refl

unfoldable pub to_upper : String → String
unfolding swap_case map_chars
to_upper s = map_chars (swap_case lower upper) s

tidied : to_upper (trim "  Ab9 ") ≡ "AB9"
unfolding to_upper trim
tidied = refl

digits_onto : ℕ → String → Option ℕ
digits_onto n [] = some n
digits_onto n (c ∷ s) =
    let rest = digits_onto (n * 10 + (code c - 48)) s in
    if leb 48 (code c) && leb (code c) 57 then rest else none

-- `Number(s)` where `/^\d+$/` matches.
unfoldable pub read_digits : String → Option ℕ
unfolding digits_onto
read_digits s = if is_empty s then none else digits_onto 0 s

-- A test of every character: `/[...]/.test(s)`.
unfoldable pub any_char : (Char → Bool) → String → Bool
any_char p [] = false
any_char p (c ∷ s) = p c || any_char p s

abbrev pub is_char : ℕ → Char → Bool
is_char n c = nat_beq (code c) n

-- `s.replace(/\\/g, '/')` for the characters `from` and `to`.
unfoldable pub replace_char : Char → Char → String → String
replace_char from to [] = []
replace_char from to (c ∷ s) =
    (if nat_beq (code c) (code from) then to else c) ∷ replace_char from to s

drop_start : (Char → Bool) → String → String
drop_start p [] = []
drop_start p (c ∷ s) = let rest = drop_start p s in if p c then rest else c ∷ s

drop_end : (Char → Bool) → String → String
drop_end p [] = []
drop_end p (c ∷ s) = let rest = drop_end p s in if p c && is_empty rest then [] else c ∷ rest

-- `s.replace(/^p+|p+$/g, '')`
unfoldable pub strip : (Char → Bool) → String → String
unfolding drop_start drop_end
strip p s = drop_end p (drop_start p s)

abbrev push_first : Char → List String → List String
push_first c [] = (c ∷ []) ∷ []
push_first c (p ∷ ps) = (c ∷ p) ∷ ps

-- `s.split(sep)` for a separator of one character.
unfoldable pub split : Char → String → List String
split sep [] = "" ∷ []
split sep (c ∷ s) =
    let rest = split sep s in if nat_beq (code c) (code sep) then "" ∷ rest else push_first c rest

-- `parts.join(sep)`
unfoldable pub join : String → List String → String
join sep [] = ""
join sep (p ∷ []) = p
join sep (p ∷ (q ∷ ps)) = String.◌++◌ p (String.◌++◌ sep (join sep (q ∷ ps)))

-- `s.slice(0, n)`. A character of two units that the end would cut is left out.
unfoldable pub slice_start : ℕ → String → String
slice_start n [] = []
slice_start n (c ∷ s) =
    let units : ℕ = if leb 65536 (code c) then 2 else 1 in
    let rest = slice_start (n - units) s in if leb units n then c ∷ rest else []
