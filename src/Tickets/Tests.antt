-- ===== src/Tickets/Tests.antt =====
-- The theorems on tickets, at a small support desk.
use agapornis_api.Common.{
  inl, inr, subst, Bool-cases, String, true, false, Option, none, some, List, [], ◌∷◌, ◌≡◌, refl,
  string_eq, arith, ◌==◌, if◌then◌else◌,
}
use agapornis_api.Common.Dict.{get}
use agapornis_api.Common.Text.{trim, to_upper}
use agapornis_api.Registry.Types.{Role}
use agapornis_api.Tickets.{Ticket, Tickets, Actor, TicketPatch, opening, key_of, is_staff}
use agapornis_api.Tickets.Copies.{copy}
use agapornis_api.Tickets.Views.{copy_hides}
use agapornis_api.Tickets.Histories.{Call, replies, closes, reopens, Extends, run-Extends, run}
use agapornis_api.Tickets.Closing.{AllTimed, IsTimed, run-AllTimed}

abbrev ann : Actor
ann = record { id = "ann"; name = "Ann"; email = "ann@a.io"; role = Role.user }

abbrev sam : Actor
sam = record { id = "sam"; name = "Sam"; email = "sam@a.io"; role = Role.support }

abbrev down : Ticket
down = opening "TKT-1" "m1" 5 "Down" "My server is down" "technical" "high" ann

abbrev assigned_down : Ticket
assigned_down = record down { assigned_user_id = some "sam" }

abbrev desk : Tickets
desk = record { tickets = ("TKT-1", down) ∷ []; file = none }

abbrev role_of : String → Option Role
role_of id = if id == "sam" then some Role.support else none

abbrev name_of : String → Option String
name_of id = some id

ann-is_staff : is_staff Role.user ≡ false
unfolding is_staff
ann-is_staff = refl

sam-is_staff : is_staff Role.support ≡ true
unfolding is_staff
sam-is_staff = refl

copy_hides_example : copy name_of down ann ≡ copy name_of assigned_down ann
copy_hides_example = copy_hides name_of down assigned_down ann ann-is_staff refl

abbrev talk : List Call
talk =
    replies "tkt-1" "m2" 6 "Looking into it" true sam
    ∷ closes "TKT-1" 7 sam
    ∷ reopens "TKT-1" 8 ann
    ∷ []

down-there : get "TKT-1" desk.tickets ≡ some down
unfolding get
down-there = refl

run-Extends_example :
    (t : Ticket) × (get "TKT-1" (run role_of desk talk).tickets ≡ some t) × Extends down t
run-Extends_example = run-Extends role_of desk talk "TKT-1" down (tt, (tt, (tt, tt))) down-there

abbrev bad_patch : TicketPatch
bad_patch = record { status = some "closed"; priority = none; assigned_user_id = some (some "bob") }

key-there : get (key_of "TKT-1") desk.tickets ≡ some down
unfolding get key_of trim to_upper
key-there = refl

desk-AllTimed : AllTimed desk
unfolding get
desk-AllTimed key t e = elim (Bool-cases ("TKT-1" == key)) [
  | inl hit ↦ let one : down ≡ t = ground arith in subst IsTimed one refl
  | inr apart ↦ absurd (ground arith)
]

run-AllTimed_example : AllTimed (run role_of desk talk)
run-AllTimed_example = run-AllTimed role_of desk talk (tt, (tt, (tt, tt))) desk-AllTimed
