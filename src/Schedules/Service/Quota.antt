-- ===== src/Schedules/Service/Quota.antt =====
-- The bound on the schedules of a server, over every history.
mod Counts
use agapornis_api.Common.{
  ℕ, ◌≤◌, String, Bool, true, false, List, [], ◌∷◌, ◌≡◌, ◌∙◌, refl, sym, ap, inl, inr, ◌==◌,
  Bool-cases, ==_iff, string_eq, arith, Result, ok, err, length, leb,
}
use agapornis_api.Common.Dict.{set, count, count-set_le, count-set_other}
use agapornis_api.Schedules.Config.{max_schedules_per_server, ScheduleError}
use agapornis_api.Schedules.Service.{
  Service, Entry, Schedule, Request, create, of_server, list_for_server,
}
use agapornis_api.Schedules.Service.Calls.{new_schedule_lem, create_lem, stored_arm_sets}
use agapornis_api.Schedules.Service.Events.{
  Event, creates, updates, removes, runs_now, fires, settles, step, run, left_by,
}
use agapornis_api.Schedules.Service.Timers.Good.{AllGood}
use agapornis_api.Schedules.Service.Timers.Served.{stored_keyed, step-AllGood}
use Counts.{size, NoMore, fire-NoMore, settle-NoMore, run_now-NoMore, update-NoMore, remove-NoMore}

abbrev pub WithinQuota : Service → Type 0
WithinQuota s = (server : String) → length (list_for_server s server) ≤ max_schedules_per_server

list_for_server-size :
    (s : Service) (server : String) → length (list_for_server s server) ≡ size s server
unfolding list_for_server
list_for_server-size s server = refl

create-WithinQuota :
    (s : Service) (r : Result ScheduleError (Entry × Service)) (id : String) (now : ℕ)
    (server_id node_id : String) (body : Request)
    → r ≡ create s id now server_id node_id body
    → WithinQuota s
    → WithinQuota (left_by s r)
create-WithinQuota s (ok (e, s')) id now server_id node_id body h bound server =
    let (x, made, room, same) = create_lem s s' id now server_id node_id body e (sym h) in
    let own = new_schedule_lem id now server_id node_id body x made in
    let e' : Entry = record { object = s.fresh; schedule = x } in
    let grown : size s' server ≡ count (of_server server) (set id e' s.schedules) =
      ap (λ (t : Service). size t server) same
      ∙ ap (λ m. count (of_server server) m) (stored_arm_sets s id x e' now) in
    elim (Bool-cases (server_id == server)) [
      | inl mine ↦ ground (
        arith,
        grown,
        room,
        ==_iff server_id server,
        list_for_server-size s server_id,
        list_for_server-size s' server,
        count-set_le (of_server server) id e' s.schedules,
      )
      | inr other ↦ ground (
        arith,
        grown,
        bound server,
        list_for_server-size s server,
        list_for_server-size s' server,
        count-set_other (of_server server) id e' s.schedules
            (ap (λ (o : String). o == server) own.1 ∙ other),
      )
    ]
create-WithinQuota s (err e) id now server_id node_id body h bound server = bound server

NoMore-WithinQuota : (s s' : Service) → NoMore s s' → WithinQuota s → WithinQuota s'
NoMore-WithinQuota s s' no_more bound server = omega (
  arith,
  no_more server,
  bound server,
  list_for_server-size s server,
  list_for_server-size s' server,
)

step-WithinQuota : (s : Service) (ev : Event) → AllGood s → WithinQuota s → WithinQuota (step s ev)
step-WithinQuota s (creates id now server_id node_id body) good bound =
    create-WithinQuota s _ id now server_id node_id body refl bound
step-WithinQuota s (updates id now server_id body) good bound =
    NoMore-WithinQuota s _ (update-NoMore s _ id now server_id body refl) bound
step-WithinQuota s (removes id server_id) good bound =
    NoMore-WithinQuota s _ (remove-NoMore s _ id server_id refl) bound
step-WithinQuota s (runs_now id server_id) good bound =
    NoMore-WithinQuota s _ (run_now-NoMore s _ id server_id refl) bound
step-WithinQuota s (fires id now) good bound =
    NoMore-WithinQuota s _ (fire-NoMore s id now (λ k e. stored_keyed s k e good)) bound
step-WithinQuota s (settles id failed now) good bound =
    NoMore-WithinQuota s _ (settle-NoMore s id failed now (λ k e. stored_keyed s k e good)) bound

-- From a service whose timers and runs fit its schedules, and in which no server has more than 50
-- schedules, no history of calls, timers and ends of runs gives a server more than 50 schedules.
pub run-WithinQuota :
    (s : Service) (es : List Event) → AllGood s → WithinQuota s → WithinQuota (run s es)
unfolding run
run-WithinQuota s [] good bound = bound
run-WithinQuota s (ev ∷ es) good bound =
    run-WithinQuota (step s ev) es (step-AllGood s ev good) (step-WithinQuota s ev good bound)
