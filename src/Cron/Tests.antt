-- ===== src/Cron/Tests.antt =====
-- The theorems on cron jobs, at a job that restarts a server every minute.
use agapornis_api.Common.{
  ℕ, String, true, false, none, some, List, [], ◌∷◌, ◌≡◌, refl, arith, inl, inr, ap, sym, ◌∙◌, ◌==◌,
  ==_iff, string_eq, nat_eq, All, Bool-cases,
}
use agapornis_api.Common.Dict.{get, set}
use agapornis_api.Cron.{
  CronJob, Run, Service, Timer, armed, next_run, remove, settle, fire, run_now,
}
use agapornis_api.Cron.Actions.{Agent, execute}
use agapornis_api.Cron.Actions.Own.{IsOwn, execute-IsOwn}
use agapornis_api.Cron.Events.{AllFresh, Event, IsArmed, apply, fires, run, runs_now, settles}
use agapornis_api.Cron.Live.{AllSpare, IsLive, run-IsLive}
use agapornis_api.Cron.Lost.{IsLost, failed_never_again, removed_returns}

abbrev restarting : CronJob
restarting = record {
  id = "c";
  name = "Restart";
  enabled = true;
  interval_seconds = 60;
  event_type = "cron.tick";
  webhook_target_id = none;
  payload = ("action", "server.restart") ∷ ("nodeId", "n") ∷ ("serverId", "s") ∷ [];
  last_run_at = none;
  next_run_at = some 60000;
  created_at = 0;
}

abbrev willing : Agent
willing calls call = record { throws = false; success = some true }

execute-IsOwn_example : All (IsOwn restarting) (execute willing restarting).1
execute-IsOwn_example = execute-IsOwn willing restarting

abbrev waiting : Service
waiting = record {
  jobs = ("c", restarting) ∷ [];
  timers = ("c", armed restarting 0) ∷ [];
  runs = [];
  file = none;
}

-- Its timer has gone off, and its run is under way.
abbrev gone_off : Service
gone_off = record {
  jobs = ("c", restarting) ∷ [];
  timers = ("c", record (armed restarting 0) { pending = false }) ∷ [];
  runs = (1, record { job = restarting; timed = true }) ∷ [];
  file = none;
}

one_entry {ℓ} :
    {V : Type ℓ} (k j : String) (v w : V) → get j ((k, v) ∷ []) ≡ some w → (k ≡ j) × (v ≡ w)
unfolding get
one_entry k j v w h = elim (Bool-cases (k == j)) [
  | inl hit ↦ ((==_iff k j).0 hit, ground arith)
  | inr apart ↦ absurd (ground arith)
]

one_run : (k j : ℕ) (v w : Run) → get j ((k, v) ∷ []) ≡ some w → (k ≡ j) × (v ≡ w)
unfolding get
one_run k j v w h = elim (Bool-cases (k == j)) [
  | inl hit ↦ ((==_iff k j).0 hit, ground arith)
  | inr apart ↦ absurd (ground arith)
]

no_run : (n : ℕ) (r : Run) → get n waiting.runs ≡ some r → ⊥
unfolding get
no_run n r h = ground arith

waiting-IsArmed : IsArmed waiting
waiting-IsArmed = record {
  timers_enabled = λ k t h.
      let (key, same) = one_entry "c" k (armed restarting 0) t h in
      (ap (λ (x : Timer). x.job.enabled) (sym same), ap (λ (x : Timer). x.job.id) (sym same) ∙ key);
  runs_enabled = λ n r h timed. absurd (no_run n r h);
}

gone_off-IsArmed : IsArmed gone_off
gone_off-IsArmed = record {
  timers_enabled = λ k t h.
      let (key, same) = one_entry "c" k (record (armed restarting 0) { pending = false }) t h in
      (ap (λ (x : Timer). x.job.enabled) (sym same), ap (λ (x : Timer). x.job.id) (sym same) ∙ key);
  runs_enabled = λ n r h timed.
      let (key, same) = one_run 1 n (record { job = restarting; timed = true }) r h in
      ap (λ (x : Run). x.job.enabled) (sym same);
}

abbrev days : List Event
days = fires "c" 1 ∷ runs_now "c" 2 ∷ settles 2 true 60500 ∷ settles 1 false 61000 ∷ []

days-AllFresh : AllFresh waiting days
unfolding apply fire run_now get set
days-AllFresh = (refl, (refl, (tt, (tt, tt))))

days-AllSpare : AllSpare "c" waiting days
unfolding apply fire run_now settle get set
days-AllSpare = (tt, (tt, (λ r h timed named. ground arith, (λ r h timed named. refl, tt))))

c-waits : get "c" waiting.timers ≡ some (armed restarting 0)
unfolding get
c-waits = refl

run-IsLive_example : IsLive "c" (run waiting days)
run-IsLive_example =
    run-IsLive waiting days "c" waiting-IsArmed days-AllFresh days-AllSpare
      (inl (armed restarting 0, c-waits, refl))

only_run : (t : Timer) → get "c" gone_off.timers ≡ some t → t.pending ≡ false
only_run t h =
    let (key, same) = one_entry "c" "c" (record (armed restarting 0) { pending = false }) t h in
    ap (λ (x : Timer). x.pending) (sym same)

run-there : get 1 gone_off.runs ≡ some (record { job = restarting; timed = true })
unfolding get
run-there = refl

failed_never_again_example :
    (IsLost "c" (run (settle gone_off 1 true 61000) (runs_now "c" 2 ∷ settles 2 false 70000 ∷ [])))
    × ((settle gone_off 1 true 61000).jobs ≡ gone_off.jobs)
failed_never_again_example =
    failed_never_again gone_off "c" 1 61000 (record { job = restarting; timed = true })
      (runs_now "c" 2 ∷ settles 2 false 70000 ∷ []) gone_off-IsArmed run-there only_run
      (λ m r h timed named. sym (one_run 1 m (record { job = restarting; timed = true }) r h).0)
      (tt, (tt, tt))

removed_returns_example :
    (get "c" (settle (remove gone_off "c") 1 false 61000).jobs ≡ some (next_run restarting 61000))
    × (get "c" (settle (remove gone_off "c") 1 false 61000).timers
        ≡ some (armed (next_run restarting 61000) 61000))
removed_returns_example =
    removed_returns gone_off 1 61000 (record { job = restarting; timed = true }) gone_off-IsArmed
      run-there refl
