-- ===== src/Tickets/Views.antt =====
-- What those who are not staff learn of a ticket.
use agapornis_api.Common.{
  String, Bool, false, ◌≡◌, refl, sym, ap, ◌∙◌, arith, Option, none, List, [], ◌∷◌, filter,
}
use agapornis_api.Tickets.{Ticket, Actor, Message, is_staff}
use agapornis_api.Tickets.Copies.{copy, is_shown}

-- The ticket without its internal notes, its assignee and the requester's name and address.
abbrev pub public_part : Ticket → Ticket
public_part t = record t {
  requester_name = "";
  requester_email = "";
  assigned_user_id = none;
  messages = filter (is_shown false) t.messages;
}

filter_twice : (p : Message → Bool) (ms : List Message) → filter p (filter p ms) ≡ filter p ms
filter_twice p [] = refl
filter_twice p (m ∷ ms) = ground (arith, filter_twice p ms)

copy-public_part :
    (name_of : String → Option String) (t : Ticket) (actor : Actor)
    → is_staff actor.role ≡ false
    → copy name_of t actor ≡ copy name_of (public_part t) actor
unfolding copy
copy-public_part name_of t actor other = rw (other, filter_twice (is_shown false) t.messages) refl

-- To an actor who is not staff, two tickets that differ only in internal notes, the assignee and the
-- requester's name and address look the same.
pub copy_hides :
    (name_of : String → Option String) (t t' : Ticket) (actor : Actor)
    → is_staff actor.role ≡ false
    → public_part t ≡ public_part t'
    → copy name_of t actor ≡ copy name_of t' actor
copy_hides name_of t t' actor other same =
    copy-public_part name_of t actor other
    ∙ ap (λ u. copy name_of u actor) same
    ∙ sym (copy-public_part name_of t' actor other)
