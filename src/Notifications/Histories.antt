-- ===== src/Notifications/Histories.antt =====
-- What holds over any history of calls of the notifications.
use Prim.Native.Nat.{ℕ, ◌+◌, ◌≤◌}
use native.Mathlib.Omega.{arith}
use agapornis_api.Common.{
  String, not, ◌≡◌, refl, sym, subst, ◌⊎◌, inl, inr, some, List, [], ◌∷◌, ==_iff, string_eq,
  Bool-cases, Option-cases, get_or, filter, dedupe, any,
}
use agapornis_api.Common.Dict.{get, set, values, count, count-set_same}
use agapornis_api.Common.Text.{is_empty}
use agapornis_api.Notifications.{
  Notification, Service, Content, create, create_each, create_for_users, mark_read, mark_all_read,
  remove_for_user, is_for, new_notification, read_now, save, is_unread_for,
}
use agapornis_api.Notifications.Keys.{
  IsKeyed, IsKeyed-get, set-IsKeyed, read_all-IsKeyed, count-read_all, without_user-IsKeyed,
  count-without_user,
}
use agapornis_api.Notifications.Pruning.{prune-IsKeyed, prune-le}

pub data Event : Type 0 where
  creates : String → ℕ → String → Content → Event
  tells : (ℕ → String) → ℕ → List String → Content → Event
  reads : String → String → ℕ → Event
  reads_all : String → ℕ → Event
  removes_user : String → Event

unfoldable pub apply : Service → Event → Service
apply s (creates id now user content) = create s id now user content
apply s (tells draw now users content) = create_for_users s draw now users content
apply s (reads id user now) = get_or (mark_read s id user now) s
apply s (reads_all user now) = mark_all_read s user now
apply s (removes_user user) = remove_for_user s user

unfoldable pub run : Service → List Event → Service
run s [] = s
run s (e ∷ es) = run (apply s e) es

-- Each notification stands under its id, and no user has more than 200.
abbrev pub IsBounded : Service → Type 0
IsBounded s =
    (IsKeyed s.notifications) × ((user : String) → count (is_for user) s.notifications ≤ 200)

pub create-IsBounded :
    (s : Service) (id : String) (now : ℕ) (user : String) (content : Content)
    → IsBounded s
    → IsBounded (create s id now user content)
unfolding create
create-IsBounded s id now user content (keyed, few) =
    let item = new_notification id now user content in
    let keyed' = set-IsKeyed id item s.notifications refl keyed in
    (
      prune-IsKeyed (set id item s.notifications) keyed',
      λ other. prune-le (set id item s.notifications) other keyed',
    )

create_each-IsBounded :
    (s : Service) (draw : ℕ → String) (n now : ℕ) (users : List String) (content : Content)
    → IsBounded s
    → IsBounded (create_each s draw n now users content)
unfolding create_each
create_each-IsBounded s draw n now [] content h = h
create_each-IsBounded s draw n now (user ∷ users) content h =
    create_each-IsBounded (create s (draw n) now user content) draw (n + 1) now users content
      (create-IsBounded s (draw n) now user content h)

-- The store once an item was read.
abbrev pub marked : Service → String → Notification → ℕ → Service
marked s id item now =
    save (record s { notifications = set id (read_now now item) s.notifications })

pub mark_read_lem :
    (s : Service) (id user : String) (now : ℕ)
    → (get_or (mark_read s id user now) s ≡ s)
      ⊎ ((item : Notification) × (get id s.notifications ≡ some item)
          × (item.recipient_user_id ≡ user)
          × (get_or (mark_read s id user now) s ≡ marked s id item now))
unfolding mark_read
mark_read_lem s id user now = elim (Option-cases (get id s.notifications)) [
  | inl gone ↦ inl (ground arith)
  | inr (item, there) ↦ elim (Bool-cases (is_for user item)) [
    | inl own ↦ inr (item, there, (==_iff item.recipient_user_id user).0 own, ground arith)
    | inr foreign ↦ inl (ground arith)
  ]
]

mark_read-IsBounded :
    (s : Service) (id user : String) (now : ℕ)
    → IsBounded s
    → IsBounded (get_or (mark_read s id user now) s)
mark_read-IsBounded s id user now (keyed, few) = elim (mark_read_lem s id user now) [
  | inl same ↦ subst IsBounded (sym same) (keyed, few)
  | inr (item, there, own, made) ↦
      let read = read_now now item in
      subst IsBounded (sym made) (
        set-IsKeyed id read s.notifications (IsKeyed-get s.notifications id item keyed there) keyed,
        λ other. ground (
          arith,
          count-set_same (is_for other) id read item s.notifications there refl,
          few other,
        ),
      )
]

mark_all_read-IsBounded :
    (s : Service) (user : String) (now : ℕ) → IsBounded s → IsBounded (mark_all_read s user now)
unfolding mark_all_read
mark_all_read-IsBounded s user now (keyed, few) =
    elim (Bool-cases (any (is_unread_for user) (values s.notifications))) [
      | inl some' ↦ rw some' (
        read_all-IsKeyed user now s.notifications keyed,
        λ other. ground (arith, count-read_all user other now s.notifications, few other),
      )
      | inr none' ↦ rw none' (keyed, few)
    ]

remove_for_user-IsBounded :
    (s : Service) (user : String) → IsBounded s → IsBounded (remove_for_user s user)
unfolding remove_for_user
remove_for_user-IsBounded s user (keyed, few) =
    elim (Bool-cases (any (is_for user) (values s.notifications))) [
      | inl some' ↦ rw some' (
        without_user-IsKeyed user s.notifications keyed,
        λ other. ground (arith, count-without_user user other s.notifications, few other),
      )
      | inr none' ↦ rw none' (keyed, few)
    ]

pub apply-IsBounded : (s : Service) (e : Event) → IsBounded s → IsBounded (apply s e)
unfolding apply create_for_users
apply-IsBounded s (creates id now user content) h = create-IsBounded s id now user content h
apply-IsBounded s (tells draw now users content) h =
    create_each-IsBounded s draw 0 now (dedupe (filter (λ u. not (is_empty u)) users)) content h
apply-IsBounded s (reads id user now) h = mark_read-IsBounded s id user now h
apply-IsBounded s (reads_all user now) h = mark_all_read-IsBounded s user now h
apply-IsBounded s (removes_user user) h = remove_for_user-IsBounded s user h

-- From a store that holds each notification under its id, and no more than 200 of a user, no history
-- of calls gives a user more than 200, whatever ids are drawn and at whatever times.
pub run-IsBounded : (s : Service) (es : List Event) → IsBounded s → IsBounded (run s es)
unfolding run
run-IsBounded s [] h = h
run-IsBounded s (e ∷ es) h = run-IsBounded (apply s e) es (apply-IsBounded s e h)
