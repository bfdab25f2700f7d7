-- ===== src/Tickets/Histories.antt =====
-- The messages of a ticket over any history of calls.
use agapornis_api.Common.{
  ℕ, String, Bool, true, false, ◌≡◌, refl, sym, ap, ◌∙◌, subst, arith, Option, none, some, ◌⊎◌, inl,
  inr, List, [], ◌∷◌, ◌++◌, ◌==◌, ==_iff, string_eq, Bool-cases, All, All-append, ok, Result-cases,
  Option-cases,
}
use agapornis_api.Common.Dict.{get, get-set}
use agapornis_api.Registry.Types.{Role}
use agapornis_api.Tickets.{
  closed_now, reopened, Ticket, Tickets, Actor, Message, TicketPatch, may_view, is_staff, create,
  reply, close, reopen, update, with_status, with_priority, with_assignee, status_of,
}
use agapornis_api.Tickets.Calls.{
  Changes, IsReply, IsClosing, IsReopening, IsUpdate, reply_lem, close_lem, reopen_lem, update_lem,
  create_lem,
}

pub data Call : Type 0 where
  creates : String → String → ℕ → String → String → String → String → Actor → Call
  replies : String → String → ℕ → String → Bool → Actor → Call
  updates : String → ℕ → TicketPatch → Actor → Call
  closes reopens : String → ℕ → Actor → Call

module _ (role_of : String → Option Role) where
  unfoldable pub apply : Tickets → Call → Tickets
  apply st (creates id message_id now subject body category priority actor) =
      (create st id message_id now subject body category priority actor).0
  apply st (replies id message_id now body internal actor) =
      (reply st id message_id now body internal actor).0
  apply st (updates id now patch actor) = (update role_of st id now patch actor).0
  apply st (closes id now actor) = (close st id now actor).0
  apply st (reopens id now actor) = (reopen st id now actor).0

  unfoldable pub run : Tickets → List Call → Tickets
  run st [] = st
  run st (c ∷ calls) = run (apply st c) calls

  -- A new ticket takes an id that no ticket has, as `ticketId` sees to.
  abbrev pub IsFresh : Tickets → Call → Type 0
  IsFresh st (creates id message_id now subject body category priority actor) =
      get id st.tickets ≡ none
  IsFresh st _ = Unit

  abbrev pub AllFresh : Tickets → List Call → Type 0
  AllFresh st [] = Unit
  AllFresh st (c ∷ calls) = IsFresh st c × AllFresh (apply st c) calls

-- A message of staff, or one of the ticket's requester that is no internal note.
abbrev pub MayWrite : String → Message → Type 0
MayWrite owner m =
    (is_staff m.author_role ≡ true) ⊎ ((m.author_user_id ≡ owner) × (m.internal ≡ false))

-- The ticket has kept its requester and its messages, and got those that may be written.
abbrev pub Extends : Ticket → Ticket → Type 0
Extends t t' =
    (more : List Message) × (t'.messages ≡ t.messages ++ more)
    × (t'.user_id ≡ t.user_id)
    × All (MayWrite t.user_id) more

append_nil : (ms : List Message) → ms ≡ ms ++ []
append_nil [] = refl
append_nil (m ∷ ms) = ap (λ ns. m ∷ ns) (append_nil ms)

append_assoc : (ms ns os : List Message) → (ms ++ ns) ++ os ≡ ms ++ (ns ++ os)
append_assoc [] ns os = refl
append_assoc (m ∷ ms) ns os = ap (λ ks. m ∷ ks) (append_assoc ms ns os)

same-Extends : (t t' : Ticket) → t'.messages ≡ t.messages → t'.user_id ≡ t.user_id → Extends t t'
same-Extends t t' kept owner = ([], kept ∙ append_nil t.messages, owner, tt)

Extends-twice : (t u v : Ticket) → Extends t u → Extends u v → Extends t v
Extends-twice t u v (ms, em, eu, am) (ns, en, ev, an) = (
  ms ++ ns,
  en ∙ ap (λ ks. ks ++ ns) em ∙ append_assoc t.messages ms ns,
  ev ∙ eu,
  All-append (MayWrite t.user_id) ms ns am (subst (λ o. All (MayWrite o) ns) eu an),
)

reply-Extends : (now : ℕ) (actor : Actor) (t t' : Ticket) → IsReply now actor t t' → Extends t t'
unfolding may_view
reply-Extends now actor t t' (m, made, sees, active, author, role, fine) =
    subst (Extends t) (sym made) (m ∷ [], refl, refl, (writes, tt))
  where
    writes : MayWrite t.user_id m
    writes = elim (Bool-cases (is_staff actor.role)) [
      | inl staff ↦ inl (ap is_staff role ∙ staff)
      | inr other ↦ inr (ground (arith, ==_iff t.user_id actor.id), ground arith)
    ]

-- Nothing but the status, the priority, the assignee and the times changes in an update.
abbrev pub SameWords : Ticket → Ticket → Type 0
SameWords t t' = (t'.messages ≡ t.messages) × (t'.user_id ≡ t.user_id)

with_status-SameWords : (s : Option String) (t u : Ticket) → with_status s t ≡ ok u → SameWords t u
unfolding with_status
with_status-SameWords none t u h =
    let same : t ≡ u = ground arith in subst (SameWords t) same (refl, refl)
with_status-SameWords (some v) t u h = elim (Result-cases (status_of v)) [
  | inr (e, unread) ↦ absurd (ground arith)
  | inl (s, read) ↦
      let same : record t { status = s } ≡ u = ground arith in subst (SameWords t) same (refl, refl)
]

with_priority-SameWords : (p : Option String) (t : Ticket) → SameWords t (with_priority p t)
with_priority-SameWords none t = (refl, refl)
with_priority-SameWords (some v) t = (refl, refl)

with_assignee-SameWords :
    (role_of : String → Option Role) (a : Option (Option String)) (t v : Ticket)
    → with_assignee role_of a t ≡ ok v
    → SameWords t v
unfolding with_assignee
with_assignee-SameWords role_of none t v h =
    let same : t ≡ v = ground arith in subst (SameWords t) same (refl, refl)
with_assignee-SameWords role_of (some none) t v h =
    let same : record t { assigned_user_id = none } ≡ v = ground arith in
    subst (SameWords t) same (refl, refl)
with_assignee-SameWords role_of (some (some id)) t v h = elim (Option-cases (role_of id)) [
  | inl gone ↦ absurd (ground arith)
  | inr (r, there) ↦ elim (Bool-cases (is_staff r)) [
    | inr other ↦ absurd (ground arith)
    | inl staff ↦
        let same : record t { assigned_user_id = some id } ≡ v = ground arith in
        subst (SameWords t) same (refl, refl)
  ]
]

SameWords-twice : (t u v : Ticket) → SameWords t u → SameWords u v → SameWords t v
SameWords-twice t u v (a, b) (c, d) = (c ∙ a, d ∙ b)

update-SameWords :
    (role_of : String → Option Role) (now : ℕ) (patch : TicketPatch) (t t' : Ticket)
    → IsUpdate role_of now patch t t'
    → SameWords t t'
update-SameWords role_of now patch t t' (u, read, set_more) =
    let changed = with_priority patch.priority u in
    let early =
      SameWords-twice t u changed (with_status-SameWords patch.status t u read)
        (with_priority-SameWords patch.priority u) in
    elim set_more [
      | inl (e, refused, made) ↦ subst (SameWords t) (sym made) early
      | inr (v, taken, made) ↦ subst (SameWords t) (sym made) (
          SameWords-twice t changed v early
            (with_assignee-SameWords role_of patch.assigned_user_id changed v taken))
    ]

-- A change of one ticket, seen at any key.
changed-Extends :
    (P : Ticket → Ticket → Type 0) (st st' : Tickets) (key : String) (t : Ticket)
    → Changes P st st'
    → ((u v : Ticket) → P u v → Extends u v)
    → get key st.tickets ≡ some t
    → (t' : Ticket) × (get key st'.tickets ≡ some t') × Extends t t'
changed-Extends P st st' key t changes ext here = elim changes [
  | inl same ↦ (t, ap (get key) same ∙ here, same-Extends t t refl refl)
  | inr (k, u, v, there, made, p) ↦ elim (Bool-cases (k == key)) [
    | inr apart ↦ (
      t,
      ap (get key) made ∙ ground (arith, get-set k key v st.tickets),
      same-Extends t t refl refl,
    )
    | inl hit ↦
        let one : some u ≡ some t =
          sym there ∙ ap (λ i. get i st.tickets) ((==_iff k key).0 hit) ∙ here in
        let eq : u ≡ t = ground arith in
        (
          v,
          ap (get key) made ∙ ground (arith, get-set k key v st.tickets),
          subst (λ w. Extends w v) eq (ext u v p),
        )
  ]
]

module _ (role_of : String → Option Role) where
  apply-Extends :
      (st : Tickets) (c : Call) (key : String) (t : Ticket)
      → IsFresh role_of st c
      → get key st.tickets ≡ some t
      → (t' : Ticket) × (get key (apply role_of st c).tickets ≡ some t') × Extends t t'
  unfolding apply
  apply-Extends st (creates id message_id now subject body category priority actor) key t fresh
        here =
      elim (create_lem st id message_id now subject body category priority actor) [
        | inl same ↦ (t, ap (get key) same ∙ here, same-Extends t t refl refl)
        | inr (new, made, _) ↦ elim (Bool-cases (id == key)) [
          | inl hit ↦
              let e : none ≡ some t =
                sym fresh ∙ ap (λ i. get i st.tickets) ((==_iff id key).0 hit) ∙ here in
              absurd (ground arith)
          | inr apart ↦ (
            t,
            ap (get key) made ∙ ground (arith, get-set id key new st.tickets),
            same-Extends t t refl refl,
          )
        ]
      ]
  apply-Extends st (replies id message_id now body internal actor) key t fresh here =
      changed-Extends (IsReply now actor) st (reply st id message_id now body internal actor).0 key
        t (reply_lem st id message_id now body internal actor) (reply-Extends now actor) here
  apply-Extends st (updates id now patch actor) key t fresh here =
      changed-Extends (IsUpdate role_of now patch) st (update role_of st id now patch actor).0 key t
        (update_lem role_of st id now patch actor)
        (λ u v p.
          let (words, owner) = update-SameWords role_of now patch u v p in
          same-Extends u v words owner)
        here
  apply-Extends st (closes id now actor) key t fresh here =
      changed-Extends (IsClosing now) st (close st id now actor).0 key t (close_lem st id now actor)
        (λ u v p. subst (Extends u) (sym p) (same-Extends u (closed_now u now) refl refl)) here
  apply-Extends st (reopens id now actor) key t fresh here =
      changed-Extends (IsReopening now) st (reopen st id now actor).0 key t
        (reopen_lem st id now actor)
        (λ u v p. subst (Extends u) (sym p) (same-Extends u (reopened u now) refl refl)) here

  -- Over any history of calls in which new tickets take new ids, a ticket stays stored, keeps its
  -- requester and all its messages in their order, and gets only messages of staff and messages of
  -- its requester that are no internal notes, whoever calls.
  pub run-Extends :
      (st : Tickets) (calls : List Call) (key : String) (t : Ticket)
      → AllFresh role_of st calls
      → get key st.tickets ≡ some t
      → (t' : Ticket) × (get key (run role_of st calls).tickets ≡ some t') × Extends t t'
  unfolding run
  run-Extends st [] key t fresh here = (t, here, same-Extends t t refl refl)
  run-Extends st (c ∷ calls) key t (fresh, rest) here =
      let (u, there, first) = apply-Extends st c key t fresh here in
      let (v, stored_last, more) = run-Extends (apply role_of st c) calls key u rest there in
      (v, stored_last, Extends-twice t u v first more)
