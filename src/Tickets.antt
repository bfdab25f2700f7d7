-- ===== src/Tickets.antt =====
-- Support tickets: `create`, `reply`, `update`, `close`, `reopen` of
-- src/modules/tickets/tickets.service.ts, over the JSON store, with ticket support switched on. A
-- ticket is an object that a call changes in place, so a call that throws may have changed it. Which
-- users are staff is asked of the users' service, a parameter. The texts of notifications and mails
-- are not modelled, and neither is the activity log. Times are milliseconds.
pub mod Copies
pub mod Views
pub mod Calls
pub mod Histories
pub mod Closing
mod Tests
use agapornis_api.Common.{
  ℕ, String, Bool, true, false, not, ◌&&◌, ◌||◌, Option, none, some, List, [], ◌∷◌, ◌++◌, map,
  if◌then◌else◌, ◌==◌, string_eq, ltb, filter, is_some, Result, ok, err,
}
use agapornis_api.Common.Dict.{get, set, values}
use agapornis_api.Common.Text.{trim, to_upper, text_length, is_empty}
use agapornis_api.Registry.Types.{Role}

pub data Category : Type 0 where
  general technical billing abuse : Category

pub data Priority : Type 0 where
  low normal high urgent : Priority

pub data Status : Type 0 where
  opened waiting_on_staff waiting_on_user resolved closed : Status

pub record Actor : Type 0 where
  pub id : String
  pub name : String
  pub email : String
  pub role : Role

pub record Message : Type 0 where
  pub id : String
  pub author_user_id : String
  pub author_name : String
  pub author_role : Role
  pub body : String
  pub internal : Bool
  pub created_at : ℕ

pub record Ticket : Type 0 where
  pub id : String
  pub user_id : String
  pub requester_name : String
  pub requester_email : String
  pub subject : String
  pub category : Category
  pub priority : Priority
  pub status : Status
  pub assigned_user_id : Option String
  pub messages : List Message
  pub created_at : ℕ
  pub updated_at : ℕ
  pub closed_at : Option ℕ

-- `tickets`, and what `save` last wrote.
pub record Tickets : Type 0 where
  pub tickets : List (String × Ticket)
  pub file : Option (List Ticket)

pub data TicketError : Type 0 where
  missing_subject long_subject missing_message long_message not_found denied : TicketError
  is_closed staff_only bad_status bad_assignee already_active : TicketError

-- What a call leaves and what it returns or throws.
abbrev pub Outcome : Type 0
Outcome = Tickets × Result TicketError Ticket

abbrev pub save : Tickets → Tickets
save st = record st { file = some (values st.tickets) }

-- The object of the ticket is changed in the map, and saved.
abbrev pub stored : Tickets → String → Ticket → Outcome
stored st key t = (save (record st { tickets = set key t st.tickets }), ok t)

unfoldable pub is_staff : Role → Bool
is_staff Role.owner = true
is_staff Role.admin = true
is_staff Role.support = true
is_staff Role.user = false

unfoldable pub may_view : Actor → Ticket → Bool
unfolding is_staff
may_view actor t = is_staff actor.role || t.user_id == actor.id

-- `requiredText`; a value that is missing is the empty text.
unfoldable pub required_text : String → ℕ → TicketError → TicketError → Result TicketError String
unfolding trim
required_text value longest missing too_long =
    let text = trim value in
    if is_empty text
    then err missing
    else if ltb longest (text_length text)
    then err too_long
    else ok text

abbrev pub category_of : String → Category
category_of v =
    if v == "technical"
    then technical
    else if v == "billing"
    then billing
    else if v == "abuse"
    then abuse
    else general

abbrev pub priority_of : String → Priority
priority_of v =
    if v == "low"
    then low
    else if v == "high"
    then high
    else if v == "urgent"
    then urgent
    else normal

unfoldable pub status_of : String → Result TicketError Status
status_of v =
    if v == "open"
    then ok opened
    else if v == "waiting_on_staff"
    then ok waiting_on_staff
    else if v == "waiting_on_user"
    then ok waiting_on_user
    else if v == "resolved"
    then ok resolved
    else if v == "closed"
    then ok closed
    else err bad_status

abbrev pub is_status_closed : Status → Bool
is_status_closed closed = true
is_status_closed _ = false

abbrev pub is_status_resolved : Status → Bool
is_status_resolved resolved = true
is_status_resolved _ = false

-- `message`: `id` is what `randomUUID` gives.
abbrev pub message : String → String → Actor → ℕ → Bool → Message
message id body actor now internal = record {
  id = id;
  author_user_id = actor.id;
  author_name = actor.name;
  author_role = actor.role;
  body = body;
  internal = internal;
  created_at = now;
}

unfoldable pub key_of : String → String
unfolding trim to_upper
key_of id = to_upper (trim id)

-- The object literal of `create`.
abbrev pub opening : String → String → ℕ → String → String → String → String → Actor → Ticket
opening id message_id now title text category priority actor = record {
  id = id;
  user_id = actor.id;
  requester_name = actor.name;
  requester_email = actor.email;
  subject = title;
  category = category_of category;
  priority = priority_of priority;
  status = waiting_on_staff;
  assigned_user_id = none;
  messages = message message_id text actor now false ∷ [];
  created_at = now;
  updated_at = now;
  closed_at = none;
}

-- The ids are what the random bytes give; `ticketId` draws one that no ticket has.
unfoldable pub create :
    Tickets → String → String → ℕ → String → String → String → String → Actor → Outcome
unfolding required_text
create st id message_id now subject body category priority actor =
    elim (required_text subject 180 missing_subject long_subject) [
      | err e ↦ (st, err e)
      | ok title ↦ elim (required_text body 8000 missing_message long_message) [
        | err e ↦ (st, err e)
        | ok text ↦ stored st id (opening id message_id now title text category priority actor)
      ]
    ]

abbrev pub replied : Ticket → Message → ℕ → Actor → Ticket
replied t m now actor = record t {
  messages = t.messages ++ m ∷ [];
  updated_at = now;
  status =
      if m.internal
      then t.status
      else if is_staff actor.role
      then waiting_on_user
      else waiting_on_staff;
  closed_at = none;
}

unfoldable pub reply : Tickets → String → String → ℕ → String → Bool → Actor → Outcome
unfolding key_of may_view is_staff required_text
reply st id message_id now body internal actor = elim (get (key_of id) st.tickets) [
  | none ↦ (st, err not_found)
  | some t ↦
      if not (may_view actor t)
      then (st, err denied)
      else if is_status_closed t.status
      then (st, err is_closed)
      else if internal && not (is_staff actor.role)
      then (st, err staff_only)
      else elim (required_text body 8000 missing_message long_message) [
        | err e ↦ (st, err e)
        | ok text ↦
            stored st (key_of id) (replied t (message message_id text actor now internal) now actor)
      ]
]

abbrev pub closed_now : Ticket → ℕ → Ticket
closed_now t now = record t { status = closed; closed_at = some now; updated_at = now }

unfoldable pub close : Tickets → String → ℕ → Actor → Outcome
unfolding key_of may_view
close st id now actor = elim (get (key_of id) st.tickets) [
  | none ↦ (st, err not_found)
  | some t ↦
      if not (may_view actor t) then (st, err denied) else stored st (key_of id) (closed_now t now)
]

abbrev pub reopened : Ticket → ℕ → Ticket
reopened t now = record t { status = waiting_on_staff; updated_at = now; closed_at = none }

unfoldable pub reopen : Tickets → String → ℕ → Actor → Outcome
unfolding key_of may_view
reopen st id now actor = elim (get (key_of id) st.tickets) [
  | none ↦ (st, err not_found)
  | some t ↦
      if not (may_view actor t)
      then (st, err denied)
      else if not (is_status_closed t.status) && not (is_status_resolved t.status)
      then (st, err already_active)
      else stored st (key_of id) (reopened t now)
]

-- The fields of an update's body that are given; an assignee of `none` is `null` or the empty text.
pub record TicketPatch : Type 0 where
  pub status : Option String
  pub priority : Option String
  pub assigned_user_id : Option (Option String)

abbrev pub with_priority : Option String → Ticket → Ticket
with_priority none t = t
with_priority (some v) t = record t { priority = priority_of v }

-- The status of an update, if it can be read.
unfoldable pub with_status : Option String → Ticket → Result TicketError Ticket
unfolding status_of
with_status none t = ok t
with_status (some v) t = elim (status_of v) [ err e ↦ err e | ok s ↦ ok (record t { status = s }) ]

abbrev pub touched : Ticket → ℕ → Ticket
touched t now = record t {
  updated_at = now;
  closed_at = if is_status_closed t.status then some now else none;
}

module _ (role_of : String → Option Role) where
  -- `assignee`: `role_of` is the role of a user, if there is one.
  unfoldable pub with_assignee : Option (Option String) → Ticket → Result TicketError Ticket
  unfolding is_staff
  with_assignee none t = ok t
  with_assignee (some none) t = ok (record t { assigned_user_id = none })
  with_assignee (some (some id)) t = elim (role_of id) [
    | none ↦ err bad_assignee
    | some r ↦ if is_staff r then ok (record t { assigned_user_id = some id }) else err bad_assignee
  ]

  -- The fields are set one by one: an assignee that is refused leaves what was set before it.
  unfoldable pub update : Tickets → String → ℕ → TicketPatch → Actor → Outcome
  unfolding key_of is_staff
  update st id now patch actor =
      if not (is_staff actor.role)
      then (st, err staff_only)
      else elim (get (key_of id) st.tickets) [
        | none ↦ (st, err not_found)
        | some t ↦ elim (with_status patch.status t) [
          | err e ↦ (st, err e)
          | ok t' ↦
              let changed = with_priority patch.priority t' in
              elim (with_assignee patch.assigned_user_id changed) [
                | err e ↦ (record st { tickets = set (key_of id) changed st.tickets }, err e)
                | ok t'' ↦ stored st (key_of id) (touched t'' now)
              ]
        ]
      ]
