-- ===== src/Common/Sorting.antt =====
-- `xs.sort(compare)`: a stable sort by a test of whether one item may stand before another.
use mathlib.Core.Path.{◌≡◌, refl}
use mathlib.Core.Logic.{inl, inr}
use mathlib.Core.Bool.{Bool, true, false, ◌&&◌, ◌||◌}
use Prim.Native.Nat.{◌+◌}
use mathlib.Core.List.{List, [], ◌∷◌, ◌++◌, Perm, perm_middle, append-nil}
use mathlib.Core.List.Perm
use native.Mathlib.Omega.{arith}
use agapornis_api.Common.Tests.{if◌then◌else◌, Bool-cases}
use agapornis_api.Common.Lists.{All, any, filter, length, is_nil}

module _ {ℓ} {A : Type ℓ} (le : A → A → Bool) where
  unfoldable insert_by : A → List A → List A
  insert_by x [] = x ∷ []
  insert_by x (y ∷ ys) = let rest = insert_by x ys in if le y x then y ∷ rest else x ∷ y ∷ ys

  unfoldable sort_onto : List A → List A → List A
  sort_onto [] out = out
  sort_onto (x ∷ xs) out = sort_onto xs (insert_by x out)

  unfoldable pub sort_by : List A → List A
  unfolding sort_onto insert_by
  sort_by xs = sort_onto xs []

  is_nil-insert_by : (x : A) (xs : List A) → is_nil (insert_by x xs) ≡ false
  unfolding insert_by
  is_nil-insert_by x [] = refl
  is_nil-insert_by x (y ∷ ys) = ground arith

  is_nil-sort_onto : (xs out : List A) → is_nil (sort_onto xs out) ≡ (is_nil xs && is_nil out)
  unfolding sort_onto
  is_nil-sort_onto [] out = refl
  is_nil-sort_onto (x ∷ xs) out =
      ground (arith, is_nil-sort_onto xs (insert_by x out), is_nil-insert_by x out)

  pub is_nil-sort_by : (xs : List A) → is_nil (sort_by xs) ≡ is_nil xs
  unfolding sort_by
  is_nil-sort_by xs = ground (arith, is_nil-sort_onto xs [])

  module _ (p : A → Bool) where
    any-insert_by : (x : A) (xs : List A) → any p (insert_by x xs) ≡ (p x || any p xs)
    unfolding insert_by
    any-insert_by x [] = refl
    any-insert_by x (y ∷ ys) = ground (arith, any-insert_by x ys)

    any-sort_onto : (xs out : List A) → any p (sort_onto xs out) ≡ (any p xs || any p out)
    unfolding sort_onto
    any-sort_onto [] out = refl
    any-sort_onto (x ∷ xs) out =
        ground (arith, any-sort_onto xs (insert_by x out), any-insert_by x out)

    pub any-sort_by : (xs : List A) → any p (sort_by xs) ≡ any p xs
    unfolding sort_by
    any-sort_by xs = ground (arith, any-sort_onto xs [])

  module _ (p : A → Bool) where
    count-insert_by :
        (x : A) (xs : List A) → length (filter p (insert_by x xs)) ≡ length (filter p (x ∷ xs))
    unfolding insert_by
    count-insert_by x [] = refl
    count-insert_by x (y ∷ ys) = ground (arith, count-insert_by x ys)

    count-sort_onto :
        (xs out : List A)
        → length (filter p (sort_onto xs out)) ≡ length (filter p xs) + length (filter p out)
    unfolding sort_onto
    count-sort_onto [] out = omega arith
    count-sort_onto (x ∷ xs) out =
        ground (arith, count-sort_onto xs (insert_by x out), count-insert_by x out)

    -- As many items pass a test as before.
    pub count-sort_by : (xs : List A) → length (filter p (sort_by xs)) ≡ length (filter p xs)
    unfolding sort_by
    count-sort_by xs = ground (arith, count-sort_onto xs [])

  module _ {κ} (P : A → Type κ) where
    All-insert_by : (x : A) (xs : List A) → P x → All P xs → All P (insert_by x xs)
    unfolding insert_by
    All-insert_by x [] p h = (p, tt)
    All-insert_by x (y ∷ ys) p (q, h) = ground (arith, All-insert_by x ys p h)

    All-sort_onto : (xs out : List A) → All P xs → All P out → All P (sort_onto xs out)
    unfolding sort_onto
    All-sort_onto [] out h k = k
    All-sort_onto (x ∷ xs) out (p, h) k =
        All-sort_onto xs (insert_by x out) h (All-insert_by x out p k)

    -- What holds of every item still does.
    pub All-sort_by : (xs : List A) → All P xs → All P (sort_by xs)
    unfolding sort_by
    All-sort_by xs h = All-sort_onto xs [] h tt

    insert_by-All : (x : A) (xs : List A) → All P (insert_by x xs) → P x × All P xs
    unfolding insert_by
    insert_by-All x [] h = h
    insert_by-All x (y ∷ ys) h = elim (Bool-cases (le y x)) [
      | inl past ↦ ground (arith, insert_by-All x ys)
      | inr here ↦ ground arith
    ]

    sort_onto-All : (xs out : List A) → All P (sort_onto xs out) → All P xs × All P out
    unfolding sort_onto
    sort_onto-All [] out h = (tt, h)
    sort_onto-All (x ∷ xs) out h =
        let (there, onto) = sort_onto-All xs (insert_by x out) h in
        let (p, here) = insert_by-All x out onto in ((p, there), here)

    pub sort_by-All : (xs : List A) → All P (sort_by xs) → All P xs
    unfolding sort_by
    sort_by-All xs h = (sort_onto-All xs [] h).0

  -- Each item may stand before the next one.
  abbrev pub IsOrdered : List A → Type 0
  IsOrdered [] = Unit
  IsOrdered (x ∷ []) = Unit
  IsOrdered (x ∷ (y ∷ ys)) = (le x y ≡ true) × IsOrdered (y ∷ ys)

  insert_by-perm : (x : A) (xs : List A) → Perm (insert_by x xs) (x ∷ xs)
  unfolding insert_by
  insert_by-perm x [] = Perm.rfl
  insert_by-perm x (y ∷ ys) = elim (Bool-cases (le y x)) [
    | inl past ↦ rw past (Perm.trans (Perm.cons y (insert_by-perm x ys)) (Perm.swap x y ys))
    | inr here ↦ rw here Perm.rfl
  ]

  sort_onto-perm : (xs out : List A) → Perm (sort_onto xs out) (xs ++ out)
  unfolding sort_onto
  sort_onto-perm [] out = Perm.rfl
  sort_onto-perm (x ∷ xs) out =
      Perm.trans (sort_onto-perm xs (insert_by x out))
        (Perm.trans (Perm.append_left xs (insert_by-perm x out)) (perm_middle xs out))

  -- Sorting loses and adds nothing.
  pub sort_by-perm : (xs : List A) → Perm (sort_by xs) xs
  unfolding sort_by
  sort_by-perm xs = rw append-nil at (sort_onto-perm xs [])

  module _ (total : (x y : A) → le x y ≡ false → le y x ≡ true) where
    insert_by-IsOrdered : (x : A) (xs : List A) → IsOrdered xs → IsOrdered (insert_by x xs)
    unfolding insert_by
    insert_by-IsOrdered x [] o = tt
    insert_by-IsOrdered x (y ∷ []) o = ground (arith, total y x)
    insert_by-IsOrdered x (y ∷ (z ∷ zs)) (first, o) =
        ground (arith, total y x, total z x, insert_by-IsOrdered x (z ∷ zs) o)

    sort_onto-IsOrdered : (xs out : List A) → IsOrdered out → IsOrdered (sort_onto xs out)
    unfolding sort_onto
    sort_onto-IsOrdered [] out o = o
    sort_onto-IsOrdered (x ∷ xs) out o =
        sort_onto-IsOrdered xs (insert_by x out) (insert_by-IsOrdered x out o)

    pub sort_by-IsOrdered : (xs : List A) → IsOrdered (sort_by xs)
    unfolding sort_by
    sort_by-IsOrdered xs = sort_onto-IsOrdered xs [] tt
