-- ===== src/Common/Results.antt =====
-- A call that may throw: its value, or the error thrown.
use mathlib.Core.Bool.{Bool, true, false}
use mathlib.Core.Logic.{◌⊎◌, inl, inr}
use mathlib.Core.Path.{◌≡◌, refl}
use mathlib.Core.Option.{Option, none, some}

pub data Result {ℓ μ} (E : Type μ) (A : Type ℓ) : Type (ℓ ⊔ μ) where
  ok : A → Result E A
  err : E → Result E A

-- `if (value === undefined) throw error`
abbrev pub expect {ℓ μ} : {E : Type μ} {A : Type ℓ} → E → Option A → Result E A
expect e none = err e
expect e (some a) = ok a

-- What follows a call that may throw.
abbrev pub and_then {ℓ κ μ} :
    {E : Type μ} {A : Type ℓ} {B : Type κ} → Result E A → (A → Result E B) → Result E B
and_then (err e) k = err e
and_then (ok a) k = k a

pub Result-cases {ℓ μ} :
    {E : Type μ} {A : Type ℓ} (r : Result E A) → ((a : A) × (r ≡ ok a)) ⊎ ((e : E) × (r ≡ err e))
Result-cases (err e) = inr (e, refl)
Result-cases (ok a) = inl (a, refl)

-- For `do` blocks.
infixl 5 ◌>>=◌
abbrev pub ◌>>=◌ {ℓ κ μ} :
    {E : Type μ} {A : Type ℓ} {B : Type κ} → Result E A → (A → Result E B) → Result E B
◌>>=◌ = and_then

-- `if (test) throw error; return value`
abbrev pub unless {ℓ μ} : {E : Type μ} {A : Type ℓ} → Bool → E → A → Result E A
unless true e a = err e
unless false e a = ok a

-- `true` of a call that returned.
abbrev pub is_ok {ℓ μ} : {E : Type μ} {A : Type ℓ} → Result E A → Bool
is_ok (ok a) = true
is_ok (err e) = false

-- `if (test) throw error`
abbrev pub refuse_if {μ} : {E : Type μ} → Bool → E → Result E (Unit {0})
refuse_if true e = err e
refuse_if false e = ok tt

-- What a call returns satisfies `P`, if it returns.
abbrev pub Holds {ℓ κ μ} : {E : Type μ} {A : Type ℓ} → (A → Type κ) → Result E A → Type κ
Holds P (ok a) = P a
Holds P (err e) = Unit

module _ {ℓ κ μ ν ξ} {E : Type μ} {A : Type ℓ} {B : Type κ} (P : A → Type ν) (Q : B → Type ξ) where
  pub Holds-and_then :
      (r : Result E A) (k : A → Result E B)
      → Holds P r
      → ((a : A) → P a → Holds Q (k a))
      → Holds Q (and_then r k)
  Holds-and_then (ok a) k h next = next a h
  Holds-and_then (err e) k h next = tt

pub Holds-any {ℓ κ μ ν} :
    {E : Type μ} {A : Type ℓ} {B : Type κ} (Q : B → Type ν) (r : Result E A) (k : A → Result E B)
    → ((a : A) → Holds Q (k a))
    → Holds Q (and_then r k)
Holds-any Q (ok a) k next = next a
Holds-any Q (err e) k next = tt

pub Holds-imp {ℓ κ μ ν} :
    {E : Type μ} {A : Type ℓ} {P : A → Type κ} {Q : A → Type ν} (r : Result E A)
    → Holds P r
    → ((a : A) → P a → Q a)
    → Holds Q r
Holds-imp (ok a) h imp = imp a h
Holds-imp (err e) h imp = tt

pub Holds-all {ℓ μ} : {E : Type μ} {A : Type ℓ} (r : Result E A) → Holds (λ _. Unit {0}) r
Holds-all (ok a) = tt
Holds-all (err e) = tt

pub expect-Holds {ℓ μ} :
    {E : Type μ} {A : Type ℓ} (e : E) (o : Option A) → Holds (λ a. o ≡ some a) (expect e o)
expect-Holds e none = tt
expect-Holds e (some a) = refl
