-- ===== src/Notifications/Pruning.antt =====
-- What `prune` leaves: at most 200 notifications of each user.
use Prim.Native.Nat.{ℕ, ◌+◌, ◌≤◌}
use native.Mathlib.Omega.{arith}
use agapornis_api.Common.{
  String, inl, inr, List, [], ◌∷◌, All, filter, length, ◌==◌, ==_iff, ==_refl, string_eq,
  Bool-cases, get_or, leb,
}
use agapornis_api.Common.Dict.{
  get, set, delete, values, get-set, get-delete, count, count-delete_le,
}
use agapornis_api.Common.Sorting.{sort_by, count-sort_by, All-sort_by}
use agapornis_api.Notifications.{Notification, prune_from, prune, is_for, newer}
use agapornis_api.Notifications.Keys.{
  Entries, IsKeyed, IsIn, is_named, values-IsIn, count-is_named, delete-IsKeyed, count-delete_lt,
}

-- No two items have one id.
abbrev AreDistinct : List Notification → Type 0
AreDistinct items = (id : String) → length (filter (is_named id) items) ≤ 1

-- The items stay in the store when another one is deleted.
delete-IsIn :
    (m : Entries) (id : String) (items : List Notification)
    → length (filter (is_named id) items) ≤ 0
    → All (IsIn m) items
    → All (IsIn (delete id m)) items
delete-IsIn m id [] none_left h = tt
delete-IsIn m id (item ∷ items) none_left (there, h) = elim (Bool-cases (item.id == id)) [
  | inl hit ↦ absurd (ground arith)
  | inr apart ↦
      ground (
        arith,
        get-delete id item.id m,
        ==_iff id item.id,
        ==_iff item.id id,
        delete-IsIn m id items,
      )
]

-- How many of a user's notifications were kept so far.
abbrev pub kept_of : List (String × ℕ) → String → ℕ
kept_of per_user user = get_or (get user per_user) 0

prune_from-le :
    (items : List Notification) (per_user : List (String × ℕ)) (m : Entries) (user : String)
    → AreDistinct items
    → All (IsIn m) items
    → kept_of per_user user ≤ 200
    → count (is_for user) m ≤ kept_of per_user user + length (filter (is_for user) items)
    → count (is_for user) (prune_from items per_user m) ≤ 200
unfolding prune_from
prune_from-le [] per_user m user distinct h few bound = omega arith
prune_from-le (item ∷ items) per_user m user distinct (there, h) few bound =
    let others : AreDistinct items = λ id. ground (arith, distinct id) in
    let recipient = item.recipient_user_id in
    let kept = kept_of per_user recipient in
    elim (Bool-cases (leb 200 kept)) [
      | inl full ↦
          let alone : length (filter (is_named item.id) items) ≤ 0 =
            ground (arith, distinct item.id, ==_refl item.id) in
          let fewer : count (is_for user) (delete item.id m)
              ≤ kept_of per_user user + length (filter (is_for user) items) =
            ground (
              arith,
              bound,
              count-delete_le (is_for user) item.id m,
              count-delete_lt (is_for user) item.id item m there,
            ) in
          let rest =
            prune_from-le items per_user (delete item.id m) user others
              (delete-IsIn m item.id items alone h) few fewer in
          rw full rest
      | inr free ↦
          let per_user' = set recipient (kept + 1) per_user in
          let few' : kept_of per_user' user ≤ 200 =
            ground (
              arith,
              few,
              free,
              get-set recipient user (kept + 1) per_user,
              ==_iff recipient user,
            ) in
          let bound' : count (is_for user) m
              ≤ kept_of per_user' user + length (filter (is_for user) items) =
            ground
              (arith, bound, get-set recipient user (kept + 1) per_user, ==_iff recipient user) in
          rw free (prune_from-le items per_user' m user others h few' bound')
    ]

prune_from-IsKeyed :
    (items : List Notification) (per_user : List (String × ℕ)) (m : Entries)
    → IsKeyed m
    → IsKeyed (prune_from items per_user m)
unfolding prune_from
prune_from-IsKeyed [] per_user m keyed = keyed
prune_from-IsKeyed (item ∷ items) per_user m keyed =
    let recipient = item.recipient_user_id in
    let kept = kept_of per_user recipient in
    elim (Bool-cases (leb 200 kept)) [
      | inl full ↦
          rw full
            (prune_from-IsKeyed items per_user (delete item.id m) (delete-IsKeyed item.id m keyed))
      | inr free ↦ rw free (prune_from-IsKeyed items (set recipient (kept + 1) per_user) m keyed)
    ]

pub prune-IsKeyed : (m : Entries) → IsKeyed m → IsKeyed (prune m)
unfolding prune
prune-IsKeyed m keyed = prune_from-IsKeyed (sort_by newer (values m)) [] m keyed

pub prune-le : (m : Entries) (user : String) → IsKeyed m → count (is_for user) (prune m) ≤ 200
unfolding prune get
prune-le m user keyed =
    prune_from-le (sort_by newer (values m)) [] m user
      (λ id.
        ground (arith, count-sort_by newer (is_named id) (values m), count-is_named m id keyed))
      (All-sort_by newer (IsIn m) (values m) (values-IsIn m keyed)) (omega arith)
      (ground (arith, count-sort_by newer (is_for user) (values m)))
