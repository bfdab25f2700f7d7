-- ===== src/Auth/Passwords.antt =====
-- The password policy: `validatePassword` of src/modules/auth/password-policy.ts. `lower` is
-- `toLocaleLowerCase`, and `length` counts UTF-16 units.
use Prim.Native.Char.{Char, code}
use Prim.Native.String.{String, [], ◌∷◌}
use agapornis_api.Common.{
  ℕ, ◌+◌, Bool, not, ◌&&◌, ◌||◌, List, map, if◌then◌else◌, string_eq, ltb, leb, any, contains,
  filter, Result, ◌>>=◌, refuse_if,
}
use agapornis_api.Common.Text.{includes, trim, text_length, any_char, is_space, split}

pub record Policy : Type 0 where
  pub min_length : ℕ
  pub max_length : ℕ
  pub required_classes : ℕ

abbrev pub password_policy : Policy
password_policy = record { min_length = 12; max_length = 128; required_classes = 3 }

pub data PasswordError : Type 0 where
  too_short too_long few_classes too_common has_identity : PasswordError

abbrev pub common_passwords : List String
common_passwords = List.◌∷◌ "password" (
    List.◌∷◌ "password123" (
      List.◌∷◌ "123456789012"
        (List.◌∷◌ "qwerty123456" (List.◌∷◌ "letmein123456" (List.◌∷◌ "admin12345678" List.[])))))

abbrev between : ℕ → ℕ → Char → Bool
between lo hi c = leb lo (code c) && leb (code c) hi

abbrev pub is_lower : Char → Bool
is_lower = between b'a' b'z'

abbrev pub is_upper : Char → Bool
is_upper = between b'A' b'Z'

abbrev pub is_digit : Char → Bool
is_digit = between b'0' b'9'

abbrev pub is_symbol : Char → Bool
is_symbol c = not (is_lower c || is_upper c || is_digit c)

abbrev one_if : Bool → ℕ
one_if b = if b then 1 else 0

unfoldable pub classes : String → ℕ
unfolding any_char
classes s =
    one_if (any_char is_lower s)
    + one_if (any_char is_upper s)
    + one_if (any_char is_digit s)
    + one_if (any_char is_symbol s)

abbrev first_part : List String → String
first_part List.[] = ""
first_part (List.◌∷◌ p ps) = p

-- `s.split(/\s+/)`; the parts between adjacent spaces are empty and do not count below.
unfoldable pub words : String → List String
unfolding is_space
words [] = List.◌∷◌ "" List.[]
words (c ∷ s) =
    let rest = words s in
    if is_space c
    then List.◌∷◌ "" rest
    else elim rest [ List.[] ↦ List.◌∷◌ (c ∷ []) List.[] | List.◌∷◌ p ps ↦ List.◌∷◌ (c ∷ p) ps ]

abbrev at_sign : Char
at_sign = Prim.Native.Char.char b'@' tt

-- The parts of the address and the name that a password must not contain.
unfoldable pub identity_parts : (lower : String → String) → String → String → List String
unfolding words split trim
identity_parts lower email name =
    filter (λ part. leb 4 (text_length part))
      (map (λ part. lower (trim part)) (List.◌∷◌ (first_part (split at_sign email)) (words name)))

unfoldable pub validate_password :
    (lower : String → String) → String → String → String → Policy → Result PasswordError (Unit {0})
validate_password lower password email name policy = do
  u₁ ← refuse_if (ltb (text_length password) policy.min_length) too_short
  u₂ ← refuse_if (ltb policy.max_length (text_length password)) too_long
  u₃ ← refuse_if (ltb (classes password) policy.required_classes) few_classes
  u₄ ← refuse_if (contains common_passwords (lower password)) too_common
  refuse_if (any (λ part. includes part (lower password)) (identity_parts lower email name))
      has_identity
