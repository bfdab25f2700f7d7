-- ===== src/Tickets/Closing.antt =====
-- The time at which a ticket was closed, and updates that throw.
use agapornis_api.Common.{
  ℕ, String, true, ◌≡◌, refl, sym, ap, ◌∙◌, subst, arith, Option, some, inl, inr, List, [], ◌∷◌,
  ◌==◌, string_eq, Bool-cases, is_some, is_ok,
}
use agapornis_api.Common.Dict.{get, set, get-set}
use agapornis_api.Registry.Types.{Role}
use agapornis_api.Tickets.{
  create, Ticket, Tickets, Actor, TicketPatch, is_status_closed, touched, reply, close, reopen,
  update, with_priority, with_assignee, is_staff,
}
use agapornis_api.Tickets.Calls.{
  Changes, IsReply, IsClosing, IsReopening, IsUpdate, reply_lem, close_lem, reopen_lem, update_lem,
  create_lem,
}
use agapornis_api.Tickets.Histories.{Call, creates, replies, updates, closes, reopens, apply, run}

-- The ticket has a closing time exactly if it is closed.
abbrev pub IsTimed : Ticket → Type 0
IsTimed t = is_status_closed t.status ≡ is_some t.closed_at

abbrev pub AllTimed : Tickets → Type 0
AllTimed st = (key : String) (t : Ticket) → get key st.tickets ≡ some t → IsTimed t

-- The call is no update whose assignee is refused.
abbrev pub Accepts : (String → Option Role) → Call → Type 0
Accepts role_of (updates id now patch actor) =
    (t : Ticket) → is_ok (with_assignee role_of patch.assigned_user_id t) ≡ true
Accepts role_of _ = Unit

abbrev pub AllAccept : (String → Option Role) → List Call → Type 0
AllAccept role_of [] = Unit
AllAccept role_of (c ∷ calls) = Accepts role_of c × AllAccept role_of calls

touched-IsTimed : (t : Ticket) (now : ℕ) → IsTimed (touched t now)
touched-IsTimed t now = ground arith

set-AllTimed :
    (st st' : Tickets) (key : String) (new : Ticket)
    → st'.tickets ≡ set key new st.tickets
    → IsTimed new
    → AllTimed st
    → AllTimed st'
set-AllTimed st st' key new made timed h k t e =
    let read = sym (ap (get k) made) ∙ e in
    elim (Bool-cases (key == k)) [
      | inl hit ↦
          let one : new ≡ t = ground (arith, get-set key k new st.tickets) in
          subst IsTimed one timed
      | inr apart ↦ h k t (ground (arith, get-set key k new st.tickets))
    ]

changed-AllTimed :
    (P : Ticket → Ticket → Type 0) (st st' : Tickets)
    → Changes P st st'
    → ((u v : Ticket) → P u v → IsTimed v)
    → AllTimed st
    → AllTimed st'
changed-AllTimed P st st' changes keeps h = elim changes [
  | inl same ↦ λ k t e. h k t (sym (ap (get k) same) ∙ e)
  | inr (key, u, v, there, made, p) ↦ set-AllTimed st st' key v made (keeps u v p) h
]

reply-IsTimed : (now : ℕ) (actor : Actor) (t t' : Ticket) → IsReply now actor t t' → IsTimed t'
reply-IsTimed now actor t t' (m, made, sees, active, author, role, fine) =
    subst IsTimed (sym made) (elim (Bool-cases m.internal) [
      | inl note ↦ ground arith
      | inr public_reply ↦ elim (Bool-cases (is_staff actor.role)) [
        | inl staff ↦ ground arith
        | inr other ↦ ground arith
      ]
    ])

module _ (role_of : String → Option Role) where
  update-IsTimed :
      (id : String) (now : ℕ) (patch : TicketPatch) (actor : Actor) (t t' : Ticket)
      → Accepts role_of (updates id now patch actor)
      → IsUpdate role_of now patch t t'
      → IsTimed t'
  update-IsTimed id now patch actor t t' accepts (u, read, set_more) = elim set_more [
    | inl (e, refused, made) ↦
        let fine = accepts (with_priority patch.priority u) in absurd (ground arith)
    | inr (v, taken, made) ↦ subst IsTimed (sym made) (touched-IsTimed v now)
  ]

  apply-AllTimed :
      (st : Tickets) (c : Call) → Accepts role_of c → AllTimed st → AllTimed (apply role_of st c)
  unfolding apply
  apply-AllTimed st (creates id message_id now subject body category priority actor) fine h =
      elim (create_lem st id message_id now subject body category priority actor) [
        | inl same ↦ λ k t e. h k t (sym (ap (get k) same) ∙ e)
        | inr (new, made, (unset, waits)) ↦
            set-AllTimed st (create st id message_id now subject body category priority actor).0 id
              new made (ground arith) h
      ]
  apply-AllTimed st (replies id message_id now body internal actor) fine h =
      changed-AllTimed (IsReply now actor) st (reply st id message_id now body internal actor).0
        (reply_lem st id message_id now body internal actor) (reply-IsTimed now actor) h
  apply-AllTimed st (updates id now patch actor) fine h =
      changed-AllTimed (IsUpdate role_of now patch) st (update role_of st id now patch actor).0
        (update_lem role_of st id now patch actor)
        (λ t t' p. update-IsTimed id now patch actor t t' fine p) h
  apply-AllTimed st (closes id now actor) fine h =
      changed-AllTimed (IsClosing now) st (close st id now actor).0 (close_lem st id now actor)
        (λ t t' p. subst IsTimed (sym p) refl) h
  apply-AllTimed st (reopens id now actor) fine h =
      changed-AllTimed (IsReopening now) st (reopen st id now actor).0 (reopen_lem st id now actor)
        (λ t t' p. subst IsTimed (sym p) refl) h

  -- If every ticket has a closing time exactly if it is closed, this stays so over any history of
  -- calls in which no update's assignee is refused.
  pub run-AllTimed :
      (st : Tickets) (calls : List Call)
      → AllAccept role_of calls
      → AllTimed st
      → AllTimed (run role_of st calls)
  unfolding run
  run-AllTimed st [] fine h = h
  run-AllTimed st (c ∷ calls) (fine, rest) h =
      run-AllTimed (apply role_of st c) calls rest (apply-AllTimed st c fine h)
