-- ===== src/Tickets/Copies.antt =====
-- What a ticket shows to whom: `copy` and `find` of tickets.service.ts. The names of users are asked
-- of the users' service, a parameter.
use agapornis_api.Common.{
  ℕ, String, Bool, true, false, not, ◌||◌, Option, none, some, List, map, if◌then◌else◌, ◌==◌,
  string_eq, filter, Result, ok, err,
}
use agapornis_api.Common.Dict.{get}
use agapornis_api.Registry.Types.{Role}
use agapornis_api.Tickets.{
  Category, Priority, Status, Actor, Message, Ticket, Tickets, TicketError, not_found, denied,
  is_staff, may_view, key_of,
}

-- A message and a ticket as `copy` shows them; `none` is a field that is left out.
pub record MessageView : Type 0 where
  pub id : String
  pub author_user_id : Option String
  pub author_name : String
  pub author_role : Role
  pub body : String
  pub internal : Option Bool
  pub created_at : ℕ

pub record TicketView : Type 0 where
  pub id : String
  pub requester_name : Option String
  pub requester_email : Option String
  pub subject : String
  pub category : Category
  pub priority : Priority
  pub status : Status
  pub assigned_user_id : Option String
  pub assigned_user_name : Option String
  pub messages : List MessageView
  pub created_at : ℕ
  pub updated_at : ℕ
  pub closed_at : Option ℕ

abbrev pub shown_if {ℓ} : {A : Type ℓ} → Bool → A → Option A
shown_if true a = some a
shown_if false a = none

unfoldable pub view_message : Actor → Message → MessageView
unfolding is_staff
view_message actor m = record {
  id = m.id;
  author_user_id = if m.author_user_id == actor.id then some actor.id else none;
  author_name = m.author_name;
  author_role = m.author_role;
  body = m.body;
  internal = shown_if (is_staff actor.role) m.internal;
  created_at = m.created_at;
}

abbrev pub is_shown : Bool → Message → Bool
is_shown staff m = staff || not m.internal

abbrev pub name_in : (String → Option String) → Option String → Option String
name_in name_of none = none
name_in name_of (some id) = name_of id

-- `copy`; `name_of` is the name of a user, if there is one.
unfoldable pub copy : (String → Option String) → Ticket → Actor → TicketView
unfolding view_message is_staff
copy name_of t actor =
    let staff = is_staff actor.role in
    record {
      id = t.id;
      requester_name = shown_if staff t.requester_name;
      requester_email = shown_if staff t.requester_email;
      subject = t.subject;
      category = t.category;
      priority = t.priority;
      status = t.status;
      assigned_user_id = if staff then t.assigned_user_id else none;
      assigned_user_name = if staff then name_in name_of t.assigned_user_id else none;
      messages = map (view_message actor) (filter (is_shown staff) t.messages);
      created_at = t.created_at;
      updated_at = t.updated_at;
      closed_at = t.closed_at;
    }

unfoldable pub find_ticket :
    (String → Option String) → Tickets → String → Actor → Result TicketError TicketView
unfolding key_of may_view copy
find_ticket name_of st id actor = elim (get (key_of id) st.tickets) [
  | none ↦ err not_found
  | some t ↦ if may_view actor t then ok (copy name_of t actor) else err denied
]
