-- ===== src/Tickets/Calls.antt =====
-- What each call changes: nothing, or one ticket, in a way that is told.
use agapornis_api.Common.{
  ℕ, String, Bool, true, false, not, ◌&&◌, ◌||◌, ◌≡◌, refl, arith, Option, none, some, ◌⊎◌, inl,
  inr, string_eq, Bool-cases, Option-cases, ok, err, Result-cases,
}
use agapornis_api.Common.Dict.{get, set}
use agapornis_api.Tickets.{
  opening, closed_now, reopened, create, missing_subject, long_subject, Ticket, Tickets, Actor,
  Message, waiting_on_staff, TicketPatch, key_of, may_view, is_staff, reply, close, reopen, update,
  required_text, missing_message, long_message, message, replied, with_status, with_priority,
  with_assignee, touched, Role, is_status_closed, is_status_resolved, TicketError,
}

-- A call that changes one stored ticket, related by `P` to what it was, or none.
abbrev pub Changes : (Ticket → Ticket → Type 0) → Tickets → Tickets → Type 0
Changes P st st' =
    (st'.tickets ≡ st.tickets)
    ⊎ ((key : String) × (t : Ticket) × (t' : Ticket) × (get key st.tickets ≡ some t)
        × (st'.tickets ≡ set key t' st.tickets)
        × P t t')

-- A reply of one who may view the ticket; an internal note is of staff.
abbrev pub IsReply : ℕ → Actor → Ticket → Ticket → Type 0
IsReply now actor t t' =
    (m : Message) × (t' ≡ replied t m now actor)
    × (may_view actor t ≡ true)
    × (is_status_closed t.status ≡ false)
    × (m.author_user_id ≡ actor.id)
    × (m.author_role ≡ actor.role)
    × ((is_staff actor.role ≡ true) ⊎ (m.internal ≡ false))

pub reply_lem :
    (st : Tickets) (id message_id : String) (now : ℕ) (body : String) (internal : Bool)
    (actor : Actor)
    → Changes (IsReply now actor) st (reply st id message_id now body internal actor).0
unfolding reply
reply_lem st id message_id now body internal actor =
    elim (Option-cases (get (key_of id) st.tickets)) [
      | inl gone ↦ inl (ground arith)
      | inr (t, here) ↦ elim (Bool-cases (may_view actor t)) [
        | inr hidden ↦ inl (ground arith)
        | inl sees ↦ elim (Bool-cases (is_status_closed t.status)) [
          | inl over ↦ inl (ground arith)
          | inr active ↦ elim (Bool-cases (internal && not (is_staff actor.role))) [
            | inl outsider ↦ inl (ground arith)
            | inr fine ↦
                elim (Result-cases (required_text body 8000 missing_message long_message)) [
                  | inl (text, given) ↦
                      let m = message message_id text actor now internal in
                      inr (
                        key_of id,
                        t,
                        replied t m now actor,
                        here,
                        ground arith,
                        (m, refl, sees, active, refl, refl, ground arith),
                      )
                  | inr (e, refused) ↦ inl (ground arith)
                ]
          ]
        ]
      ]
    ]

abbrev pub IsClosing : ℕ → Ticket → Ticket → Type 0
IsClosing now t t' = t' ≡ closed_now t now

pub close_lem :
    (st : Tickets) (id : String) (now : ℕ) (actor : Actor)
    → Changes (IsClosing now) st (close st id now actor).0
unfolding close
close_lem st id now actor = elim (Option-cases (get (key_of id) st.tickets)) [
  | inl gone ↦ inl (ground arith)
  | inr (t, here) ↦ elim (Bool-cases (may_view actor t)) [
    | inr hidden ↦ inl (ground arith)
    | inl sees ↦ inr (key_of id, t, closed_now t now, here, ground arith, refl)
  ]
]

abbrev pub IsReopening : ℕ → Ticket → Ticket → Type 0
IsReopening now t t' = t' ≡ reopened t now

pub reopen_lem :
    (st : Tickets) (id : String) (now : ℕ) (actor : Actor)
    → Changes (IsReopening now) st (reopen st id now actor).0
unfolding reopen
reopen_lem st id now actor = elim (Option-cases (get (key_of id) st.tickets)) [
  | inl gone ↦ inl (ground arith)
  | inr (t, here) ↦ elim (Bool-cases (may_view actor t)) [
    | inr hidden ↦ inl (ground arith)
    | inl sees ↦ elim (Bool-cases (is_status_closed t.status || is_status_resolved t.status)) [
      | inl ended ↦ inr (key_of id, t, reopened t now, here, ground arith, refl)
      | inr active ↦ inl (ground arith)
    ]
  ]
]

-- An update: the status and the priority are set, and then either the assignee is refused, or the
-- rest is set as well.
abbrev pub IsUpdate : (String → Option Role) → ℕ → TicketPatch → Ticket → Ticket → Type 0
IsUpdate role_of now patch t t' =
    (u : Ticket) × (with_status patch.status t ≡ ok u)
    × (((e : TicketError) × (with_assignee role_of patch.assigned_user_id
              (with_priority patch.priority u)
            ≡ err e)
          × (t' ≡ with_priority patch.priority u))
        ⊎ ((v : Ticket) × (with_assignee role_of patch.assigned_user_id
                (with_priority patch.priority u)
              ≡ ok v)
            × (t' ≡ touched v now)))

pub update_lem :
    (role_of : String → Option Role) (st : Tickets) (id : String) (now : ℕ) (patch : TicketPatch)
    (actor : Actor)
    → Changes (IsUpdate role_of now patch) st (update role_of st id now patch actor).0
unfolding update
update_lem role_of st id now patch actor = elim (Bool-cases (is_staff actor.role)) [
  | inr outsider ↦ inl (ground arith)
  | inl staff ↦ elim (Option-cases (get (key_of id) st.tickets)) [
    | inl gone ↦ inl (ground arith)
    | inr (t, here) ↦ elim (Result-cases (with_status patch.status t)) [
      | inr (e, unread) ↦ inl (ground arith)
      | inl (u, read) ↦
          let changed = with_priority patch.priority u in
          elim (Result-cases (with_assignee role_of patch.assigned_user_id changed)) [
            | inr (e, refused) ↦
                inr (key_of id, t, changed, here, ground arith, (u, read, inl (e, refused, refl)))
            | inl (v, taken) ↦
                inr
                  (key_of id, t, touched v now, here, ground arith, (u, read, inr (v, taken, refl)))
          ]
    ]
  ]
]

-- A new ticket waits for staff, and has one message of its author.
abbrev pub IsNew : Actor → Ticket → Type 0
IsNew actor t = (t.closed_at ≡ none) × (t.status ≡ waiting_on_staff)

pub create_lem :
    (st : Tickets) (id message_id : String) (now : ℕ) (subject body category priority : String)
    (actor : Actor)
    → let st' = (create st id message_id now subject body category priority actor).0 in
      (st'.tickets ≡ st.tickets)
      ⊎ ((t : Ticket) × (st'.tickets ≡ set id t st.tickets) × IsNew actor t)
unfolding create
create_lem st id message_id now subject body category priority actor =
    elim (Result-cases (required_text subject 180 missing_subject long_subject)) [
      | inr (e, refused) ↦ inl (ground arith)
      | inl (title, titled) ↦
          elim (Result-cases (required_text body 8000 missing_message long_message)) [
            | inr (e, refused) ↦ inl (ground arith)
            | inl (text, given) ↦ inr (
              opening id message_id now title text category priority actor,
              ground arith,
              (refl, refl),
            )
          ]
    ]
