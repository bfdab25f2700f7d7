-- ===== src/Notifications/Tests.antt =====
-- Notifications at a concrete history.
use Prim.Native.Nat.{ℕ}
use native.Mathlib.Omega.{arith}
use agapornis_api.Common.{String, ◌≡◌, refl, none, some, List, [], ◌∷◌, string_eq}
use agapornis_api.Common.Dict.{get}
use agapornis_api.Notifications.{Notification, ticket_reply, Service, Content, new_notification}
use agapornis_api.Notifications.Histories.{
  Event, tells, reads, reads_all, removes_user, run, IsBounded, run-IsBounded,
}
use agapornis_api.Notifications.Others.{run-keeps}

abbrev content : Content
content = record {
  type = ticket_reply;
  title = "Reply";
  message = "There is a content";
  href = none;
  resource_id = some "t1";
  actor_user_id = none;
}

abbrev mine : Notification
mine = new_notification "n1" 5 "ann" content

abbrev box : Service
box = record { notifications = ("n1", mine) ∷ []; file = none }

box-IsBounded : IsBounded box
unfolding get
box-IsBounded = ((refl, refl, tt), λ user. ground arith)

abbrev drawn : ℕ → String
drawn n = "n2"

abbrev history : List Event
history =
    tells drawn 9 ("bob" ∷ "eve" ∷ []) content
    ∷ reads "n1" "bob" 10
    ∷ reads_all "bob" 11
    ∷ removes_user "eve"
    ∷ []

run-IsBounded_example : IsBounded (run box history)
run-IsBounded_example = run-IsBounded box history box-IsBounded

run-keeps_example : get "n1" (run box history).notifications ≡ some mine
unfolding get
run-keeps_example =
    run-keeps box history "n1" mine box-IsBounded refl
      (((λ k. refl), refl), (refl, (refl, (refl, tt))))
