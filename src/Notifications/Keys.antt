-- ===== src/Notifications/Keys.antt =====
-- The store of notifications: each stands once, under its own id.
use Prim.Native.Nat.{ℕ, suc, ◌≤◌}
use native.Mathlib.Omega.{arith}
use agapornis_api.Common.{
  String, Bool, true, ◌≡◌, refl, ◌∙◌, subst, inl, inr, none, some, List, [], ◌∷◌, All, All-imp,
  ◌==◌, ==_iff, string_eq, Bool-cases,
}
use agapornis_api.Common.Dict.{
  get, set, delete, values, get-set, get-delete, count, count-delete_le,
}
use agapornis_api.Notifications.{Notification, read_all, without_user, is_for}

abbrev pub Entries : Type 0
Entries = List (String × Notification)

abbrev pub IsKeyed : Entries → Type 0
IsKeyed [] = Unit
IsKeyed ((k, item) ∷ m) = (item.id ≡ k) × (get k m ≡ none) × IsKeyed m

abbrev pub is_named : String → Notification → Bool
is_named id item = item.id == id

-- An item is stored under its id.
abbrev pub IsIn : Entries → Notification → Type 0
IsIn m item = get item.id m ≡ some item

IsIn-cons :
    (k : String) (v : Notification) (m : Entries)
    → get k m ≡ none
    → (item : Notification) → IsIn m item
    → IsIn ((k, v) ∷ m) item
unfolding get
IsIn-cons k v m free item there = ground (arith, ==_iff k item.id)

pub values-IsIn : (m : Entries) → IsKeyed m → All (IsIn m) (values m)
unfolding get
values-IsIn [] keyed = tt
values-IsIn ((k, v) ∷ m) (named, free, keyed) = (
  ground (arith, named, ==_iff k v.id),
  All-imp {Q = IsIn ((k, v) ∷ m)} (IsIn-cons k v m free) (values m) (values-IsIn m keyed),
)

pub count-is_named-none :
    (m : Entries) (id : String) → IsKeyed m → get id m ≡ none → count (is_named id) m ≡ 0
unfolding get
count-is_named-none [] id keyed h = refl
count-is_named-none ((k, v) ∷ m) id (named, free, keyed) h =
    ground (arith, count-is_named-none m id keyed, named, ==_iff k id, ==_iff v.id id)

pub count-is_named : (m : Entries) (id : String) → IsKeyed m → count (is_named id) m ≤ 1
count-is_named [] id keyed = omega arith
count-is_named ((k, v) ∷ m) id (named, free, keyed) = elim (Bool-cases (v.id == id)) [
  | inl hit ↦ ground (arith, count-is_named-none m id keyed, named, ==_iff v.id id, free)
  | inr apart ↦ ground (arith, count-is_named m id keyed)
]

pub set-IsKeyed :
    (k : String) (v : Notification) (m : Entries) → v.id ≡ k → IsKeyed m → IsKeyed (set k v m)
unfolding get set
set-IsKeyed k v [] named keyed = (named, refl, tt)
set-IsKeyed k v ((j, w) ∷ m) named (own, free, keyed) = elim (Bool-cases (j == k)) [
  | inl hit ↦ ground (arith, named, free, keyed, ==_iff j k)
  | inr apart ↦
      ground
        (arith, own, free, get-set k j v m, ==_iff j k, ==_iff k j, set-IsKeyed k v m named keyed)
]

pub delete-IsKeyed : (k : String) (m : Entries) → IsKeyed m → IsKeyed (delete k m)
unfolding get delete
delete-IsKeyed k [] keyed = tt
delete-IsKeyed k ((j, w) ∷ m) (own, free, keyed) = elim (Bool-cases (j == k)) [
  | inl hit ↦ ground (arith, delete-IsKeyed k m keyed)
  | inr apart ↦ ground (arith, own, free, get-delete k j m, delete-IsKeyed k m keyed)
]

-- Deleting an item that passes a test.
pub count-delete_lt :
    (p : Notification → Bool) (k : String) (v : Notification) (m : Entries)
    → get k m ≡ some v
    → p v ≡ true
    → suc (count p (delete k m)) ≤ count p m
unfolding get delete
count-delete_lt p k v [] h passes = ground arith
count-delete_lt p k v ((j, w) ∷ m) h passes = elim (Bool-cases (j == k)) [
  | inl hit ↦ ground (arith, count-delete_le p k m)
  | inr apart ↦ ground (arith, count-delete_lt p k v m (ground arith) passes)
]

pub get-read_all-none :
    (user : String) (now : ℕ) (k : String) (m : Entries)
    → get k m ≡ none
    → get k (read_all user now m) ≡ none
unfolding get read_all
get-read_all-none user now k [] h = refl
get-read_all-none user now k ((j, w) ∷ m) h = elim (Bool-cases (j == k)) [
  | inl hit ↦ absurd (ground arith)
  | inr apart ↦ ground (arith, get-read_all-none user now k m)
]

pub read_all-IsKeyed :
    (user : String) (now : ℕ) (m : Entries) → IsKeyed m → IsKeyed (read_all user now m)
unfolding read_all
read_all-IsKeyed user now [] keyed = tt
read_all-IsKeyed user now ((j, w) ∷ m) (own, free, keyed) =
    ground (arith, own, get-read_all-none user now j m free, read_all-IsKeyed user now m keyed)

pub count-read_all :
    (user other : String) (now : ℕ) (m : Entries)
    → count (is_for other) (read_all user now m) ≡ count (is_for other) m
unfolding read_all
count-read_all user other now [] = refl
count-read_all user other now ((j, w) ∷ m) = ground (arith, count-read_all user other now m)

get-without_user-none :
    (user k : String) (m : Entries) → get k m ≡ none → get k (without_user user m) ≡ none
unfolding get without_user
get-without_user-none user k [] h = refl
get-without_user-none user k ((j, w) ∷ m) h = elim (Bool-cases (j == k)) [
  | inl hit ↦ absurd (ground arith)
  | inr apart ↦ ground (arith, get-without_user-none user k m)
]

pub without_user-IsKeyed : (user : String) (m : Entries) → IsKeyed m → IsKeyed (without_user user m)
unfolding without_user
without_user-IsKeyed user [] keyed = tt
without_user-IsKeyed user ((j, w) ∷ m) (own, free, keyed) =
    ground (arith, own, get-without_user-none user j m free, without_user-IsKeyed user m keyed)

pub count-without_user :
    (user other : String) (m : Entries)
    → count (is_for other) (without_user user m) ≤ count (is_for other) m
unfolding without_user
count-without_user user other [] = omega arith
count-without_user user other ((j, w) ∷ m) = ground (arith, count-without_user user other m)

pub IsKeyed-get :
    (m : Entries) (k : String) (v : Notification) → IsKeyed m → get k m ≡ some v → v.id ≡ k
unfolding get
IsKeyed-get [] k v keyed h = absurd (ground arith)
IsKeyed-get ((j, w) ∷ m) k v (own, free, keyed) h = elim (Bool-cases (j == k)) [
  | inl hit ↦
      let same : w ≡ v = ground arith in
      subst (λ (x : Notification). x.id ≡ k) same (own ∙ (==_iff j k).0 hit)
  | inr apart ↦ IsKeyed-get m k v keyed (ground arith)
]
