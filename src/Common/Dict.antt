-- ===== src/Common/Dict.antt =====
-- `Map` as an association list: `set` keeps the place of a key that is there, and appends a new one.
use mathlib.Core.Path.{◌≡◌, refl}
use mathlib.Core.Bool.{Bool, true, false}
use mathlib.Core.Option.{Option, none, some}
use mathlib.Core.List.{List, [], ◌∷◌}
use native.Mathlib.Omega.{arith}
use agapornis_api.Common.Tests.{Key, ◌==◌, if◌then◌else◌, is_some, Bool-cases}
use agapornis_api.Common.Lists.{length, filter, find}
use Prim.Native.Nat.{suc, ◌≤◌}
use mathlib.Core.Logic.{inl, inr}

module _ {ℓ κ} {K : Type ℓ} {V : Type κ} ⦃key : Key K⦄ where
  unfoldable pub get : K → List (K × V) → Option V
  get k [] = none
  get k ((j, v) ∷ m) = let rest = get k m in if j == k then some v else rest

  unfoldable pub set : K → V → List (K × V) → List (K × V)
  set k v [] = (k, v) ∷ []
  set k v ((j, w) ∷ m) = let rest = set k v m in if j == k then (j, v) ∷ m else (j, w) ∷ rest

  unfoldable pub delete : K → List (K × V) → List (K × V)
  delete k [] = []
  delete k ((j, w) ∷ m) = let rest = delete k m in if j == k then rest else (j, w) ∷ rest

  abbrev pub has : K → List (K × V) → Bool
  has k m = is_some (get k m)

  abbrev pub values : List (K × V) → List V
  values [] = []
  values ((k, v) ∷ m) = v ∷ values m

  pub get-set :
      (k j : K) (v : V) (m : List (K × V))
      → get j (set k v m) ≡ (if k == j then some v else get j m)
  unfolding get set
  get-set k j v [] = refl
  get-set k j v ((i, w) ∷ m) =
      ground (arith, key.same_iff k j, key.same_iff i k, key.same_iff i j, get-set k j v m)

  pub get-delete :
      (k j : K) (m : List (K × V)) → get j (delete k m) ≡ (if k == j then none else get j m)
  unfolding get delete
  get-delete k j [] = ground arith
  get-delete k j ((i, w) ∷ m) =
      ground (arith, key.same_iff k j, key.same_iff i k, key.same_iff i j, get-delete k j m)

  -- What is left after a removal was there before.
  pub get-delete-some :
      (k j : K) (m : List (K × V)) (v : V) → get j (delete k m) ≡ some v → get j m ≡ some v
  get-delete-some k j m v h = elim (Bool-cases (k == j)) [
    | inl hit ↦ absurd (ground (arith, get-delete k j m))
    | inr apart ↦ ground (arith, get-delete k j m)
  ]

  -- How many values pass a test, after a write.
  abbrev pub count : (V → Bool) → List (K × V) → Prim.Native.Nat.ℕ
  count p m = length (filter p (values m))

  pub count-set_le :
      (p : V → Bool) (k : K) (v : V) (m : List (K × V)) → count p (set k v m) ≤ suc (count p m)
  unfolding set
  count-set_le p k v [] = ground arith
  count-set_le p k v ((j, w) ∷ m) = ground (arith, count-set_le p k v m)

  pub count-set_other :
      (p : V → Bool) (k : K) (v : V) (m : List (K × V))
      → p v ≡ false
      → count p (set k v m) ≤ count p m
  unfolding set
  count-set_other p k v [] h = ground arith
  count-set_other p k v ((j, w) ∷ m) h = ground (arith, count-set_other p k v m h)

  pub count-set_same :
      (p : V → Bool) (k : K) (v old : V) (m : List (K × V))
      → get k m ≡ some old
      → p v ≡ p old
      → count p (set k v m) ≡ count p m
  unfolding get set
  count-set_same p k v old [] h same = ground arith
  count-set_same p k v old ((j, w) ∷ m) h same = elim (Bool-cases (j == k)) [
    | inl hit ↦ ground arith
    | inr miss ↦ ground (arith, count-set_same p k v old m (ground arith) same)
  ]

  pub count-delete_le : (p : V → Bool) (k : K) (m : List (K × V)) → count p (delete k m) ≤ count p m
  unfolding delete
  count-delete_le p k [] = ground arith
  count-delete_le p k ((j, w) ∷ m) = ground (arith, count-delete_le p k m)

  -- A value that was just written is found by a test that it passes.
  pub find-set_some :
      (p : V → Bool) (k : K) (v : V) (m : List (K × V))
      → p v ≡ true
      → is_some (find p (values (set k v m))) ≡ true
  unfolding set
  find-set_some p k v [] h = ground arith
  find-set_some p k v ((j, w) ∷ m) h = ground (arith, find-set_some p k v m h)

  -- What no value passes, no value under a key passes.
  pub find-get-none :
      (p : V → Bool) (k : K) (v : V) (m : List (K × V))
      → find p (values m) ≡ none
      → get k m ≡ some v
      → p v ≡ false
  unfolding get
  find-get-none p k v [] h e = ground arith
  find-get-none p k v ((j, w) ∷ m) h e = elim (Bool-cases (j == k)) [
    | inl hit ↦ elim (Bool-cases (p w)) [
      | inl passes ↦ absurd (ground arith)
      | inr fails ↦ ground arith
    ]
    | inr miss ↦ elim (Bool-cases (p w)) [
      | inl passes ↦ absurd (ground arith)
      | inr fails ↦ find-get-none p k v m (ground arith) (ground arith)
    ]
  ]
