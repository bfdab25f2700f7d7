-- ===== src/Notifications/Others.antt =====
-- What the calls for one user leave of another user's notifications.
use Prim.Native.Nat.{ℕ, ◌+◌, ◌≤◌}
use native.Mathlib.Omega.{arith}
use agapornis_api.Common.{
  String, Bool, false, not, ◌≡◌, refl, sym, subst, ◌∙◌, inl, inr, some, List, [], ◌∷◌, All, All-imp,
  filter, length, ◌==◌, ==_iff, ==_refl, string_eq, Bool-cases, leb, contains, contains-dedupe,
  dedupe,
}
use agapornis_api.Common.Dict.{
  get, set, delete, values, get-set, get-delete, count, count-set_other,
}
use agapornis_api.Common.Sorting.{sort_by, count-sort_by, All-sort_by}
use agapornis_api.Common.Text.{is_empty}
use agapornis_api.Notifications.{
  Notification, Service, Content, prune_from, prune, is_for, newer, create, create_each,
  create_for_users, mark_all_read, remove_for_user, new_notification, read_all, without_user,
  read_now,
}
use agapornis_api.Notifications.Keys.{Entries, IsKeyed, IsIn, values-IsIn, set-IsKeyed}
use agapornis_api.Notifications.Pruning.{kept_of}
use agapornis_api.Notifications.Histories.{
  Event, creates, tells, reads, reads_all, removes_user, apply, run, IsBounded, apply-IsBounded,
  create-IsBounded, mark_read_lem,
}

module _ (id : String) (mine : Notification) where
  abbrev IsMine : Notification → Type 0
  IsMine item = item.id ≡ id → item ≡ mine

  -- A notification of a user who has no more than 200 is not pruned.
  prune_from-keeps :
      (items : List Notification) (per_user : List (String × ℕ)) (m : Entries)
      → All IsMine items
      → kept_of per_user mine.recipient_user_id
          + length (filter (is_for mine.recipient_user_id) items)
        ≤ 200
      → get id m ≡ some mine
      → get id (prune_from items per_user m) ≡ some mine
  unfolding prune_from
  prune_from-keeps [] per_user m h few there = there
  prune_from-keeps (item ∷ items) per_user m (own, h) few there =
      let user = mine.recipient_user_id in
      let recipient = item.recipient_user_id in
      let kept = kept_of per_user recipient in
      elim (Bool-cases (leb 200 kept)) [
        | inl full ↦ elim (Bool-cases (item.id == id)) [
          | inl hit ↦
              let same : item ≡ mine = own ((==_iff item.id id).0 hit) in
              absurd (ground (arith, same, full, few, ==_refl user))
          | inr apart ↦
              let still : get id (delete item.id m) ≡ some mine =
                ground (arith, get-delete item.id id m) in
              rw full (prune_from-keeps items per_user (delete item.id m) h (ground arith) still)
        ]
        | inr free ↦
            let few' : kept_of (set recipient (kept + 1) per_user) user
                  + length (filter (is_for user) items)
                ≤ 200 =
              ground
                (arith, few, get-set recipient user (kept + 1) per_user, ==_iff recipient user) in
            rw free (prune_from-keeps items (set recipient (kept + 1) per_user) m h few' there)
      ]

  same_item :
      (item : Notification) (m : Entries)
      → IsIn m item
      → item.id ≡ id
      → get id m ≡ some mine
      → item ≡ mine
  same_item item m h e there =
      let found : get id m ≡ some item = subst (λ x. get x m ≡ some item) e h in ground arith

  prune-keeps :
      (m : Entries)
      → IsKeyed m
      → count (is_for mine.recipient_user_id) m ≤ 200
      → get id m ≡ some mine
      → get id (prune m) ≡ some mine
  unfolding prune get
  prune-keeps m keyed few there =
      let stored : All IsMine (values m) =
        All-imp {Q = IsMine} (λ item h e. same_item item m h e there) (values m)
          (values-IsIn m keyed) in
      prune_from-keeps (sort_by newer (values m)) [] m (All-sort_by newer IsMine (values m) stored)
        (ground (arith, count-sort_by newer (is_for mine.recipient_user_id) (values m))) there

  create-keeps :
      (s : Service) (new_id : String) (now : ℕ) (user : String) (content : Content)
      → IsBounded s
      → get id s.notifications ≡ some mine
      → (new_id == id) ≡ false
      → (user == mine.recipient_user_id) ≡ false
      → get id (create s new_id now user content).notifications ≡ some mine
  unfolding create
  create-keeps s new_id now user content (keyed, few) there fresh other =
      let item = new_notification new_id now user content in
      let m = s.notifications in
      let mine_few : count (is_for mine.recipient_user_id) (set new_id item m) ≤ 200 = omega (
        arith,
        few mine.recipient_user_id,
        count-set_other (is_for mine.recipient_user_id) new_id item m other,
      ) in
      prune-keeps (set new_id item m) (set-IsKeyed new_id item m refl keyed) mine_few
        (ground (arith, get-set new_id id item m))

  create_each-keeps :
      (s : Service) (draw : ℕ → String) (n now : ℕ) (users : List String) (content : Content)
      → IsBounded s
      → get id s.notifications ≡ some mine
      → ((k : ℕ) → (draw k == id) ≡ false)
      → contains users mine.recipient_user_id ≡ false
      → get id (create_each s draw n now users content).notifications ≡ some mine
  unfolding create_each
  create_each-keeps s draw n now [] content bounded there fresh other = there
  create_each-keeps s draw n now (user ∷ users) content bounded there fresh other =
      create_each-keeps (create s (draw n) now user content) draw (n + 1) now users content
        (create-IsBounded s (draw n) now user content bounded)
        (create-keeps s (draw n) now user content bounded there (fresh n) (ground arith)) fresh
        (ground arith)

  read_all-keeps :
      (user : String) (now : ℕ) (m : Entries)
      → (mine.recipient_user_id == user) ≡ false
      → get id m ≡ some mine
      → get id (read_all user now m) ≡ some mine
  unfolding get read_all
  read_all-keeps user now [] other there = there
  read_all-keeps user now ((j, w) ∷ m) other there = elim (Bool-cases (j == id)) [
    | inl hit ↦ let same : w ≡ mine = ground arith in ground (arith, same, other)
    | inr apart ↦ ground (arith, read_all-keeps user now m other)
  ]

  without_user-keeps :
      (user : String) (m : Entries)
      → (mine.recipient_user_id == user) ≡ false
      → get id m ≡ some mine
      → get id (without_user user m) ≡ some mine
  unfolding get without_user
  without_user-keeps user [] other there = there
  without_user-keeps user ((j, w) ∷ m) other there = elim (Bool-cases (j == id)) [
    | inl hit ↦ let same : w ≡ mine = ground arith in ground (arith, same, other)
    | inr apart ↦ ground (arith, without_user-keeps user m other)
  ]

contains-filter :
    (p : String → Bool) (xs : List String) (x : String)
    → contains xs x ≡ false
    → contains (filter p xs) x ≡ false
contains-filter p [] x h = refl
contains-filter p (y ∷ xs) x h = ground (arith, contains-filter p xs x)

-- The event is not for the user, and draws another id.
abbrev pub IsOther : String → String → Event → Type 0
IsOther id mine (creates new_id now user content) =
    ((new_id == id) ≡ false) × ((user == mine) ≡ false)
IsOther id mine (tells draw now users content) =
    ((k : ℕ) → (draw k == id) ≡ false) × (contains users mine ≡ false)
IsOther id mine (reads read_id user now) = (mine == user) ≡ false
IsOther id mine (reads_all user now) = (mine == user) ≡ false
IsOther id mine (removes_user user) = (mine == user) ≡ false

apply-keeps :
    (s : Service) (e : Event) (id : String) (mine : Notification)
    → IsBounded s
    → get id s.notifications ≡ some mine
    → IsOther id mine.recipient_user_id e
    → get id (apply s e).notifications ≡ some mine
unfolding apply create_for_users mark_all_read remove_for_user
apply-keeps s (creates new_id now user content) id mine bounded there (fresh, other) =
    create-keeps id mine s new_id now user content bounded there fresh other
apply-keeps s (tells draw now users content) id mine bounded there (fresh, other) =
    let named = filter (λ u. not (is_empty u)) users in
    create_each-keeps id mine s draw 0 now (dedupe named) content bounded there fresh (
      contains-dedupe named mine.recipient_user_id
      ∙ contains-filter (λ u. not (is_empty u)) users mine.recipient_user_id other)
apply-keeps s (reads read_id user now) id mine bounded there other =
    elim (mark_read_lem s read_id user now) [
      | inl same ↦ subst (λ (x : Service). get id x.notifications ≡ some mine) (sym same) there
      | inr (item, found, own, made) ↦
          let apart : (read_id == id) ≡ false = elim (Bool-cases (read_id == id)) [
            | inr differs ↦ differs
            | inl hit ↦
                let here : get id s.notifications ≡ some item =
                  subst (λ x. get x s.notifications ≡ some item) ((==_iff read_id id).0 hit)
                    found in
                let same : item ≡ mine = ground arith in
                let owner : mine.recipient_user_id ≡ user =
                  subst (λ (x : Notification). x.recipient_user_id ≡ user) same own in
                absurd (ground (arith, (==_iff mine.recipient_user_id user).1 owner))
          ] in
          subst (λ (x : Service). get id x.notifications ≡ some mine) (sym made)
            (ground (arith, get-set read_id id (read_now now item) s.notifications))
    ]
apply-keeps s (reads_all user now) id mine bounded there other =
    ground (arith, read_all-keeps id mine user now s.notifications other there)
apply-keeps s (removes_user user) id mine bounded there other =
    ground (arith, without_user-keeps id mine user s.notifications other there)

-- A stored notification stays as it is, read or unread, over any history of calls for other users, if
-- no user had more than 200 at the start: nobody else can read it, remove it or push it out. New ids
-- are not its id.
pub run-keeps :
    (s : Service) (es : List Event) (id : String) (mine : Notification)
    → IsBounded s
    → get id s.notifications ≡ some mine
    → All (IsOther id mine.recipient_user_id) es
    → get id (run s es).notifications ≡ some mine
unfolding run
run-keeps s [] id mine bounded there others = there
run-keeps s (e ∷ es) id mine bounded there (other, others) =
    run-keeps (apply s e) es id mine (apply-IsBounded s e bounded)
      (apply-keeps s e id mine bounded there other) others
