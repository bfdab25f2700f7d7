-- ===== src/Schedules/Service/Quota/Counts.antt =====
-- How many schedules a server has after each call, timer and end of a run.
use agapornis_api.Common.{
  ℕ, suc, ◌≤◌, String, Bool, true, false, some, ◌≡◌, ◌∙◌, refl, sym, subst, ap, inl, inr, ◌==◌,
  Bool-cases, string_eq, nat_eq, arith, Result, ok, err, leb, ◌&&◌, if◌then◌else◌,
}
use agapornis_api.Common.Dict.{get, set, delete, count, count-set_same, count-delete_le}
use agapornis_api.Schedules.Config.{failure_count, max_consecutive_failures, ScheduleError}
use agapornis_api.Schedules.Service.{
  Service, Entry, Schedule, Request, clear_timer, arm, store, update, remove, run_now, save,
  of_server, settle_scheduled, after_run, next_run, fire, settle, run_scheduled,
}
use agapornis_api.Schedules.Service.Calls.{
  arm_keeps, clear_keeps, execute_keeps, store_sets, stored_arm_sets, updated_schedule_lem,
  update_lem, remove_lem, run_now_lem,
}
use agapornis_api.Schedules.Service.Events.{left_by, changed_by}
use agapornis_api.Schedules.Service.Timers.Ops.{settle_scheduled_lem}
use agapornis_api.Schedules.Service.Timers.Runs.{fire_lem, settle_lem, run_scheduled_lem}

abbrev pub size : Service → String → ℕ
size s server = count (of_server server) s.schedules

-- No more schedules of any server than before.
abbrev pub NoMore : Service → Service → Type 0
NoMore s s' = (server : String) → size s' server ≤ size s server

-- A schedule that is stored in the place of another of its server.
replaced :
    (s s' : Service) (id : String) (e old : Entry)
    → s'.schedules ≡ set id e s.schedules
    → get id s.schedules ≡ some old
    → e.schedule.server_id ≡ old.schedule.server_id
    → NoMore s s'
replaced s s' id e old sets there same server = omega (
  arith,
  ap (count (of_server server)) sets,
  count-set_same (of_server server) id e old s.schedules there
      (ap (λ (o : String). o == server) same),
)

after_run-NoMore :
    (s : Service) (x : Entry) (failed : Bool) (now : ℕ)
    → get x.schedule.id s.schedules ≡ some x
    → NoMore s (after_run s x.schedule failed now)
unfolding after_run
after_run-NoMore s x failed now there server =
    let failures : ℕ = if failed then suc (failure_count x.schedule.consecutive_failures) else 0 in
    let next : Schedule = next_run x.schedule failures now in
    elim (Bool-cases (failed && leb max_consecutive_failures failures)) [
      | inl last ↦ rw last (count-delete_le (of_server server) x.schedule.id s.schedules)
      | inr more ↦
          let e : Entry = record { object = s.fresh; schedule = next } in
          rw more (
            replaced s (arm (store s x.schedule.id next).1 e now) x.schedule.id e x
              (stored_arm_sets s x.schedule.id next e now) there refl server)
    ]

abbrev pub Keyed : Service → Type 0
Keyed s = (id : String) (e : Entry) → get id s.schedules ≡ some e → e.schedule.id ≡ id

settle_scheduled-NoMore :
    (s : Service) (e : Entry) (failed : Bool) (now : ℕ)
    → Keyed s
    → NoMore s (settle_scheduled s e failed now)
settle_scheduled-NoMore s e failed now keyed server = elim (settle_scheduled_lem s e failed now) [
  | inl (same, away) ↦ omega (arith, ap (λ (t : Service). size t server) same)
  | inr (x, found, hit, ran) ↦
      let own : x.schedule.id ≡ e.schedule.id = keyed e.schedule.id x found in
      let there : get x.schedule.id s.schedules ≡ some x =
        subst (λ j. get j s.schedules ≡ some x) (sym own) found in
      omega (
        arith,
        ap (λ (t : Service). size t server) ran,
        after_run-NoMore s x failed now there server,
      )
]

run_scheduled-NoMore :
    (s : Service) (e : Entry) (now : ℕ) → Keyed s → NoMore s (run_scheduled s e now)
run_scheduled-NoMore s e now keyed server = elim (run_scheduled_lem s e now) [
  | inl same ↦ omega (arith, ap (λ (t : Service). size t server) same)
  | inr same ↦ omega (
    arith,
    ap (λ (t : Service). size t server) same,
    settle_scheduled-NoMore s e true now keyed server,
  )
]

pub fire-NoMore : (s : Service) (id : String) (now : ℕ) → Keyed s → NoMore s (fire s id now)
fire-NoMore s id now keyed server = elim (fire_lem s id now) [
  | inl same ↦ omega (arith, ap (λ (t : Service). size t server) same)
  | inr (t, found, pending, ways) ↦
      let s' : Service = record s { timers = set id (record t { pending = false }) s.timers } in
      elim ways [
        | inl again ↦ omega (
          arith,
          ap (λ (t : Service). size t server) again,
          ap (count (of_server server)) (arm_keeps s' t.entry now),
        )
        | inr runs ↦ omega (
          arith,
          ap (λ (t : Service). size t server) runs,
          run_scheduled-NoMore s' t.entry now keyed server,
        )
      ]
]

pub settle-NoMore :
    (s : Service) (id : String) (failed : Bool) (now : ℕ)
    → Keyed s
    → NoMore s (settle s id failed now)
settle-NoMore s id failed now keyed server = elim (settle_lem s id failed now) [
  | inl same ↦ omega (arith, ap (λ (t : Service). size t server) same)
  | inr (x, found, ways) ↦
      let s' : Service = record s { executions = delete id s.executions } in
      elim ways [
        | inl (alone, left) ↦ omega (arith, ap (λ (t : Service). size t server) left)
        | inr resumed ↦ omega (
          arith,
          ap (λ (t : Service). size t server) resumed,
          settle_scheduled-NoMore s' x.entry failed now keyed server,
        )
      ]
]

pub run_now-NoMore :
    (s : Service) (r : Result ScheduleError Service) (id server_id : String)
    → r ≡ run_now s id server_id
    → NoMore s (changed_by s r)
run_now-NoMore s (ok s') id server_id h server =
    let (e, there, ran) = run_now_lem s s' id server_id (sym h) in
    let same : s'.schedules ≡ s.schedules = execute_keeps s s' e ran in
    omega (arith, ap (count (of_server server)) same)
run_now-NoMore s (err e) id server_id h server = omega arith

pub update-NoMore :
    (s : Service) (r : Result ScheduleError (Entry × Service)) (id : String) (now : ℕ)
    (server_id : String) (body : Request)
    → r ≡ update s id now server_id body
    → NoMore s (left_by s r)
update-NoMore s (ok (e, s')) id now server_id body h server =
    let (old, x, there, made, same) = update_lem s s' id now server_id body e (sym h) in
    let kept = updated_schedule_lem old.schedule now body x made in
    let e' : Entry = record { object = s.fresh; schedule = x } in
    let sets : s'.schedules ≡ set id e' s.schedules =
      ap (λ (t : Service). t.schedules) same
      ∙ arm_keeps (clear_timer (store s id x).1 id) e' now
      ∙ clear_keeps (store s id x).1 id
      ∙ store_sets s id x in
    replaced s s' id e' old sets there kept.1 server
update-NoMore s (err e) id now server_id body h server = omega arith

pub remove-NoMore :
    (s : Service) (r : Result ScheduleError Service) (id server_id : String)
    → r ≡ remove s id server_id
    → NoMore s (changed_by s r)
unfolding save
remove-NoMore s (ok s') id server_id h server = omega (
  arith,
  ap (λ (t : Service). size t server) (remove_lem s s' id server_id (sym h)),
  count-delete_le (of_server server) id s.schedules,
)
remove-NoMore s (err e) id server_id h server = omega arith
