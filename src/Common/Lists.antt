-- ===== src/Common/Lists.antt =====
-- Lists measured by native numbers, with the array methods that the program calls.
use Prim.Native.Nat.{ℕ, zero, suc, ◌+◌, ◌-◌, ◌≤◌}
use mathlib.Core.Path.{◌≡◌, refl, ap, fun_ext}
use mathlib.Core.Logic.{inl, inr, ◌↔◌}
use mathlib.Core.Bool.{Bool, true, false, ◌||◌, ◌&&◌, not}
use mathlib.Core.Option.{Option, none, some}
use mathlib.Core.List.{List, [], ◌∷◌, ◌++◌, map}
use native.Mathlib.Omega.{arith}
use agapornis_api.Common.Tests.{Key, ◌==◌, if◌then◌else◌, Bool-cases, is_some}

module _ {ℓ} {A : Type ℓ} where
  abbrev pub length : List A → ℕ
  length [] = 0
  length (x ∷ xs) = suc (length xs)

  pub length-append : (xs ys : List A) → length (xs ++ ys) ≡ length xs + length ys
  length-append [] ys = omega arith
  length-append (x ∷ xs) ys = omega (arith, length-append xs ys)

  abbrev pub drop : ℕ → List A → List A
  drop zero xs = xs
  drop (suc n) [] = []
  drop (suc n) (x ∷ xs) = drop n xs

  pub length-drop : (n : ℕ) (xs : List A) → length (drop n xs) ≡ length xs - n
  length-drop zero xs = omega arith
  length-drop (suc n) [] = omega arith
  length-drop (suc n) (x ∷ xs) = omega (arith, length-drop n xs)

  -- `xs.slice(-n)`: the last `n` items, for `n` above 0.
  abbrev pub take_last : ℕ → List A → List A
  take_last n xs = drop (length xs - n) xs

  -- `xs.at(-1)`
  abbrev pub last? : List A → Option A
  last? [] = none
  last? (x ∷ []) = some x
  last? (x ∷ (y ∷ ys)) = last? (y ∷ ys)

  -- `xs.length === 0`
  abbrev pub is_nil : List A → Bool
  is_nil [] = true
  is_nil (x ∷ xs) = false

  -- `filter` and `some` by a Boolean test; `find` is the first hit.
  abbrev pub filter : (A → Bool) → List A → List A
  filter p [] = []
  filter p (x ∷ xs) = let rest = filter p xs in if p x then x ∷ rest else rest

  abbrev pub any : (A → Bool) → List A → Bool
  any p [] = false
  any p (x ∷ xs) = p x || any p xs

  abbrev pub find : (A → Bool) → List A → Option A
  find p [] = none
  find p (x ∷ xs) = let rest = find p xs in if p x then some x else rest

  pub length-filter-le : (p : A → Bool) (xs : List A) → length (filter p xs) ≤ length xs
  length-filter-le p [] = omega arith
  length-filter-le p (x ∷ xs) = ground (arith, length-filter-le p xs)

  pub find_sound : (p : A → Bool) (xs : List A) {a : A} → find p xs ≡ some a → p a ≡ true
  find_sound p (x ∷ xs) h = elim (Bool-cases (p x)) [
    | inl hit ↦ ground arith
    | inr miss ↦ find_sound p xs (ground arith)
  ]
  find_sound p [] h = ground arith

module _ {ℓ κ} {A : Type ℓ} (P : A → Type κ) where
  abbrev pub All : List A → Type κ
  All [] = Unit
  All (x ∷ xs) = P x × All xs

  pub All-append : (xs ys : List A) → All xs → All ys → All (xs ++ ys)
  All-append [] ys h k = k
  All-append (x ∷ xs) ys (p, h) k = (p, All-append xs ys h k)

  pub All-drop : (n : ℕ) (xs : List A) → All xs → All (drop n xs)
  All-drop zero xs h = h
  All-drop (suc n) [] h = tt
  All-drop (suc n) (x ∷ xs) (p, h) = All-drop n xs h

  pub All-filter : (p : A → Bool) (xs : List A) → All xs → All (filter p xs)
  All-filter p [] h = tt
  All-filter p (x ∷ xs) (q, h) = ground (arith, All-filter p xs h)

  pub All-find : (p : A → Bool) (xs : List A) (a : A) → All xs → find p xs ≡ some a → P a
  All-find p [] a h e = ground arith
  All-find p (x ∷ xs) a (q, h) e = elim (Bool-cases (p x)) [
    | inl hit ↦ let same : x ≡ a = ground arith in mathlib.Core.Path.subst P same q
    | inr miss ↦ All-find p xs a h (ground arith)
  ]

pub All-imp {ℓ κ μ} :
    {A : Type ℓ} {P : A → Type κ} {Q : A → Type μ}
    → ((x : A) → P x → Q x)
    → (xs : List A) → All P xs
    → All Q xs
All-imp f [] h = tt
All-imp f (x ∷ xs) (p, h) = (f x p, All-imp f xs h)

-- What the test keeps passes it.
pub All-filter_test {ℓ} :
    {A : Type ℓ} (p : A → Bool) (xs : List A) → All (λ x. p x ≡ true) (filter p xs)
All-filter_test p [] = tt
All-filter_test p (x ∷ xs) = elim (Bool-cases (p x)) [
  | inl hit ↦ ground (arith, All-filter_test p xs)
  | inr miss ↦ ground (arith, All-filter_test p xs)
]

module _ {ℓ} {A : Type ℓ} ⦃key : Key A⦄ where
  -- `xs.includes(a)`, and `xs.has(a)` of a set.
  abbrev pub contains : List A → A → Bool
  contains [] a = false
  contains (x ∷ xs) a = x == a || contains xs a

  -- `Array.from(new Set(xs))`
  unfoldable pub dedupe : List A → List A
  dedupe [] = []
  dedupe (x ∷ xs) = x ∷ filter (λ y. not (x == y)) (dedupe xs)

  contains-filter_ne :
      (x y : A) (xs : List A)
      → (x == y) ≡ false
      → contains (filter (λ z. not (x == z)) xs) y ≡ contains xs y
  contains-filter_ne x y [] h = refl
  contains-filter_ne x y (z ∷ xs) h =
      ground
        (arith, contains-filter_ne x y xs h, key.same_iff x z, key.same_iff z y, key.same_iff x y)

  pub contains-dedupe : (xs : List A) (y : A) → contains (dedupe xs) y ≡ contains xs y
  unfolding dedupe
  contains-dedupe [] y = refl
  contains-dedupe (x ∷ xs) y =
      ground (arith, contains-dedupe xs y, contains-filter_ne x y (dedupe xs))

  pub contains-append :
      (xs ys : List A) (y : A) → contains (xs ++ ys) y ≡ (contains xs y || contains ys y)
  contains-append [] ys y = refl
  contains-append (x ∷ xs) ys y = ground (arith, contains-append xs ys y)

  -- Removing every `x`, as `filter` does in the program, in the `if` form.
  pub contains-without :
      (x y : A) (xs : List A)
      → contains (filter (λ z. not (z == x)) xs) y ≡ (not (y == x) && contains xs y)
  contains-without x y [] = ground arith
  contains-without x y (z ∷ xs) =
      ground (arith, contains-without x y xs, key.same_iff z x, key.same_iff z y, key.same_iff y x)

-- Filters of a list that was mapped, filtered, or filtered only under a condition.
module _ {ℓ} {A : Type ℓ} where
  pub filter-map {κ} :
      {B : Type κ} (p : B → Bool) (f : A → B) (xs : List A)
      → filter p (map f xs) ≡ map f (filter (λ x. p (f x)) xs)
  filter-map p f [] = refl
  filter-map p f (x ∷ xs) = ground (arith, filter-map p f xs)

  pub filter-filter :
      (p q : A → Bool) (xs : List A) → filter p (filter q xs) ≡ filter (λ x. q x && p x) xs
  filter-filter p q [] = refl
  filter-filter p q (x ∷ xs) = ground (arith, filter-filter p q xs)

  pub filter_if :
      (b : Bool) (p : A → Bool) (xs : List A)
      → (if b then xs else filter p xs) ≡ filter (λ x. b || p x) xs
  filter_if b p [] = ground arith
  filter_if b p (x ∷ xs) = ground (arith, filter_if b p xs)

  pub any-filter : (p q : A → Bool) (xs : List A) → any p (filter q xs) ≡ any (λ x. q x && p x) xs
  any-filter p q [] = refl
  any-filter p q (x ∷ xs) = ground (arith, any-filter p q xs)

-- `some` of the array against its description, item by item.
module _ {ℓ κ} {A : Type ℓ} {P : A → Type κ} (p : A → Bool) where
  pub any-All :
      (xs : List A) → ((x : A) → (p x ≡ true) ↔ P x) → (any p xs ≡ false) ↔ All (λ x. ¬ P x) xs
  any-All [] h = (λ _. tt, λ _. refl)
  any-All (x ∷ xs) h =
      let (there, back) = any-All xs h in
      (
        λ e. (λ q. absurd (ground (arith, (h x).1 q)), there (ground arith)),
        λ (no', rest). elim (Bool-cases (p x)) [
          | inl hit ↦ absurd (no' ((h x).0 hit))
          | inr miss ↦ ground (arith, back rest)
        ],
      )

module _ {ℓ} {A : Type ℓ} (p q : A → Bool) where
  pub any-or : (xs : List A) → (any p xs || any q xs) ≡ any (λ x. p x || q x) xs
  any-or [] = refl
  any-or (x ∷ xs) = ground (arith, any-or xs)

-- A hit of `find` is a hit of `some`.
pub is_some-find {ℓ} : {A : Type ℓ} (p : A → Bool) (xs : List A) → is_some (find p xs) ≡ any p xs
is_some-find p [] = refl
is_some-find p (x ∷ xs) = ground (arith, is_some-find p xs)

pub any-none {ℓ} : {A : Type ℓ} (xs : List A) → any (λ (x : A). false) xs ≡ false
any-none [] = refl
any-none (x ∷ xs) = any-none xs

pub any_ext {ℓ} :
    {A : Type ℓ} (p q : A → Bool) (xs : List A) → ((x : A) → p x ≡ q x) → any p xs ≡ any q xs
any_ext p q xs h = ap (λ t. any t xs) (fun_ext h)
