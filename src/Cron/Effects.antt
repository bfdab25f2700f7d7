-- ===== src/Cron/Effects.antt =====
-- What each event does to the timers and the runs, case by case.
use agapornis_api.Common.{
  ℕ, String, Bool, true, false, ◌≡◌, refl, arith, none, some, ◌⊎◌, inl, inr, ◌==◌, string_eq,
  nat_eq, if◌then◌else◌, ltb, get_or, find, Bool-cases, Option-cases,
}
use agapornis_api.Common.Dict.{get, set, delete, values, get-set, get-delete}
use agapornis_api.Common.Text.{is_empty}
use agapornis_api.Cron.{
  CronJob, CronRequest, Run, Service, Timer, armed, create, fire, has_id, new_job, next_run,
  persist_run, run_now, schedule, settle, started, stored, first_number,
}
use agapornis_api.Cron.Events.{begun, created}

pub schedule_timers :
    (s : Service) (job : CronJob) (now : ℕ) (k : String)
    → get k (schedule s job now).timers ≡ (
        if job.id == k
        then (if job.enabled then some (armed job now) else none)
        else get k s.timers)
unfolding schedule
schedule_timers s job now k =
    ground (
      arith,
      get-delete job.id k s.timers,
      get-set job.id k (armed job now) (delete job.id s.timers),
    )

pub schedule_runs : (s : Service) (job : CronJob) (now : ℕ) → (schedule s job now).runs ≡ s.runs
unfolding schedule
schedule_runs s job now = ground arith

pub create_lem :
    (s : Service) (id : String) (now : ℕ) (body : CronRequest)
    → (created s (create s id now body) ≡ s)
      ⊎ ((job : CronJob) × (job.id ≡ id)
          × (created s (create s id now body) ≡ schedule (stored s job) job now))
unfolding create
create_lem s id now body = elim (Bool-cases (is_empty (get_or body.name ""))) [
  | inl unnamed ↦ inl (ground arith)
  | inr named ↦ elim (Bool-cases (ltb (first_number body.intervals) 10)) [
    | inl short ↦ inl (ground arith)
    | inr long ↦
        let job = new_job id now (get_or body.name "") body in inr (job, refl, ground arith)
  ]
]

pub run_now_lem :
    (s : Service) (id : String) (n : ℕ)
    → (begun s (run_now s id n) ≡ s)
      ⊎ ((job : CronJob) × (begun s (run_now s id n) ≡ started s n job false))
unfolding run_now
run_now_lem s id n = elim (Option-cases (find (has_id id) (values s.jobs))) [
  | inl gone ↦ inl (ground arith)
  | inr (job, there) ↦ inr (job, ground arith)
]

-- The timer has gone off, and its run has started.
abbrev pub fired : Service → String → ℕ → Timer → Service
fired s id n t =
    started (record s { timers = set id (record t { pending = false }) s.timers }) n t.job true

pub fire_lem :
    (s : Service) (id : String) (n : ℕ)
    → (fire s id n ≡ s)
      ⊎ ((t : Timer) × (get id s.timers ≡ some t)
          × (t.pending ≡ true)
          × (fire s id n ≡ fired s id n t))
unfolding fire
fire_lem s id n = elim (Option-cases (get id s.timers)) [
  | inl gone ↦ inl (ground arith)
  | inr (t, there) ↦ elim (Bool-cases t.pending) [
    | inl pending ↦ inr (t, there, pending, ground arith)
    | inr over ↦ inl (ground arith)
  ]
]

-- The service without the run, and with the run's job stored again.
abbrev pub ended : Service → ℕ → Service
ended s n = record s { runs = delete n s.runs }

abbrev pub rearmed : Service → ℕ → Run → ℕ → Service
rearmed s n r now =
    let next = next_run r.job now in
    schedule (persist_run (persist_run (ended s n) next) next) next now

pub settle_lem :
    (s : Service) (n : ℕ) (failed : Bool) (now : ℕ)
    → (settle s n failed now ≡ s)
      ⊎ ((r : Run) × (get n s.runs ≡ some r)
          × (((settle s n failed now).timers ≡ s.timers)
                × ((settle s n failed now).runs ≡ delete n s.runs)
                × ((failed ≡ true) ⊎ (r.timed ≡ false))
              ⊎ (settle s n failed now ≡ rearmed s n r now) × (r.timed ≡ true)))
unfolding settle
settle_lem s n failed now = elim (Option-cases (get n s.runs)) [
  | inl gone ↦ inl (ground arith)
  | inr (r, there) ↦ elim (Bool-cases failed) [
    | inl threw ↦ inr (r, there, inl (ground arith, ground arith, inl threw))
    | inr fine ↦ elim (Bool-cases r.timed) [
      | inl timed ↦ inr (r, there, inr (ground arith, timed))
      | inr manual ↦ inr (r, there, inl (ground arith, ground arith, inr manual))
    ]
  ]
]
