-- ===== src/Notifications.antt =====
-- Notifications of users: src/modules/notifications/notifications.service.ts over the JSON store. Times
-- are milliseconds, whose order is the one that `localeCompare` gives their ISO texts. `draw n` is the
-- id that the n-th call of `randomUUID` gives.
pub mod Keys
pub mod Pruning
pub mod Histories
pub mod Others
mod Tests
use agapornis_api.Common.{
  ℕ, zero, suc, ◌+◌, min, max, String, Bool, true, false, not, ◌&&◌, Option, none, some, List, [],
  ◌∷◌, map, if◌then◌else◌, ◌==◌, string_eq, leb, get_or, or_else, is_some, filter, any, length,
  dedupe, Result, ok, err,
}
use agapornis_api.Common.Dict.{get, set, delete, values}
use agapornis_api.Common.Sorting.{sort_by}
use agapornis_api.Common.Text.{is_empty}

pub data NotificationType : Type 0 where
  ticket_created ticket_reply ticket_status : NotificationType

pub record Notification : Type 0 where
  pub id : String
  pub recipient_user_id : String
  pub type : NotificationType
  pub title : String
  pub message : String
  pub href : Option String
  pub resource_id : Option String
  pub actor_user_id : Option String
  pub created_at : ℕ
  pub read_at : Option ℕ

pub record Service : Type 0 where
  pub notifications : List (String × Notification)
  pub file : Option (List Notification)

-- What a caller gives; `recipientUserId` stands apart.
pub record Content : Type 0 where
  pub type : NotificationType
  pub title : String
  pub message : String
  pub href : Option String
  pub resource_id : Option String
  pub actor_user_id : Option String

pub record ClientRecord : Type 0 where
  pub id : String
  pub type : NotificationType
  pub title : String
  pub message : String
  pub href : Option String
  pub created_at : ℕ
  pub read_at : Option ℕ

abbrev pub save : Service → Service
save s = record s { file = some (values s.notifications) }

abbrev pub is_for : String → Notification → Bool
is_for user item = item.recipient_user_id == user

abbrev pub newer : Notification → Notification → Bool
newer left right = leb right.created_at left.created_at

unfoldable pub client_record : Notification → ClientRecord
client_record item = record {
  id = item.id;
  type = item.type;
  title = item.title;
  message = item.message;
  href = item.href;
  created_at = item.created_at;
  read_at = item.read_at;
}

abbrev pub take {ℓ} : {A : Type ℓ} → ℕ → List A → List A
take zero xs = []
take (suc n) [] = []
take (suc n) (x ∷ xs) = x ∷ take n xs

unfoldable pub list_for : Service → String → ℕ → List ClientRecord
unfolding sort_by
list_for s user limit =
    let mine = filter (is_for user) (values s.notifications) in
    map client_record (take (min 100 (max 1 limit)) (sort_by newer mine))

unfoldable pub unread_count : Service → String → ℕ
unread_count s user =
    length
      (filter (λ item. is_for user item && not (is_some item.read_at)) (values s.notifications))

-- The loop of `prune`: the records that are left, how many of each user were kept, and the store.
unfoldable pub prune_from :
    List Notification
    → List (String × ℕ)
    → List (String × Notification)
    → List (String × Notification)
prune_from [] per_user m = m
prune_from (item ∷ items) per_user m =
    let count = get_or (get item.recipient_user_id per_user) 0 in
    let dropped = prune_from items per_user (delete item.id m) in
    let kept = prune_from items (set item.recipient_user_id (count + 1) per_user) m in
    if leb 200 count then dropped else kept

unfoldable pub prune : List (String × Notification) → List (String × Notification)
unfolding prune_from sort_by
prune m = prune_from (sort_by newer (values m)) [] m

abbrev pub new_notification : String → ℕ → String → Content → Notification
new_notification id now user content = record {
  id = id;
  recipient_user_id = user;
  type = content.type;
  title = content.title;
  message = content.message;
  href = content.href;
  resource_id = content.resource_id;
  actor_user_id = content.actor_user_id;
  created_at = now;
  read_at = none;
}

unfoldable pub create : Service → String → ℕ → String → Content → Service
create s id now user content =
    let item = new_notification id now user content in
    save (record s { notifications = prune (set id item s.notifications) })

unfoldable pub create_each : Service → (draw : ℕ → String) → ℕ → ℕ → List String → Content → Service
unfolding create
create_each s draw n now [] content = s
create_each s draw n now (user ∷ users) content =
    create_each (create s (draw n) now user content) draw (n + 1) now users content

unfoldable pub create_for_users :
    Service → (draw : ℕ → String) → ℕ → List String → Content → Service
unfolding create_each dedupe
create_for_users s draw now users content =
    create_each s draw 0 now (dedupe (filter (λ u. not (is_empty u)) users)) content

abbrev pub read_now : ℕ → Notification → Notification
read_now now item = record item { read_at = or_else item.read_at (some now) }

-- `none` where the call throws `not found`.
unfoldable pub mark_read : Service → String → String → ℕ → Option Service
mark_read s id user now = elim (get id s.notifications) [
  | none ↦ none
  | some item ↦
      let read = save (record s { notifications = set id (read_now now item) s.notifications }) in
      if is_for user item then some read else none
]

abbrev pub is_unread_for : String → Notification → Bool
is_unread_for user item = is_for user item && not (is_some item.read_at)

unfoldable pub read_all : String → ℕ → List (String × Notification) → List (String × Notification)
read_all user now [] = []
read_all user now ((k, item) ∷ m) =
    let item' = if is_unread_for user item then record item { read_at = some now } else item in
    (k, item') ∷ read_all user now m

unfoldable pub mark_all_read : Service → String → ℕ → Service
unfolding read_all
mark_all_read s user now =
    let read = save (record s { notifications = read_all user now s.notifications }) in
    if any (is_unread_for user) (values s.notifications) then read else s

unfoldable pub without_user : String → List (String × Notification) → List (String × Notification)
without_user user [] = []
without_user user ((k, item) ∷ m) =
    let rest = without_user user m in if is_for user item then rest else (k, item) ∷ rest

unfoldable pub remove_for_user : Service → String → Service
unfolding without_user
remove_for_user s user =
    let left = save (record s { notifications = without_user user s.notifications }) in
    if any (is_for user) (values s.notifications) then left else s
