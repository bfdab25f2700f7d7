-- ===== src/Cron/Lost.antt =====
-- Two ways in which a run's end goes wrong: a run that fails, and a run whose job was removed.
use agapornis_api.Common.{
  ℕ, String, Bool, true, false, ◌≡◌, sym, ap, ◌∙◌, subst, arith, some, inl, inr, List, [], ◌∷◌,
  ◌==◌, ==_iff, ==_refl, string_eq, nat_eq, Bool-cases,
}
use agapornis_api.Common.Dict.{get, set, delete, get-set, get-delete, get-delete-some}
use agapornis_api.Cron.{
  CronJob, Run, Service, Timer, armed, next_run, persist_run, remove, schedule, settle, started,
  stored,
}
use agapornis_api.Cron.Armed.{apply-IsArmed}
use agapornis_api.Cron.Effects.{
  create_lem, ended, fire_lem, fired, rearmed, run_now_lem, schedule_runs, schedule_timers,
  settle_lem,
}
use agapornis_api.Cron.Events.{
  Event, IsArmed, apply, creates, fires, removes, run, runs_now, settles,
}

-- No timer of the job waits, and no run that its timer started is under way.
abbrev pub HasNoTimer : String → Service → Type 0
HasNoTimer id s = (t : Timer) → get id s.timers ≡ some t → t.pending ≡ false

abbrev pub HasNoRun : String → Service → Type 0
HasNoRun id s =
    (n : ℕ) (r : Run) → get n s.runs ≡ some r → r.timed ≡ true → (r.job.id == id) ≡ false

abbrev pub IsLost : String → Service → Type 0
IsLost id s = HasNoTimer id s × HasNoRun id s

-- The event does not create the job.
abbrev pub Spares : String → Event → Type 0
Spares id (creates other now body) = (other == id) ≡ false
Spares id _ = Unit

abbrev pub AllSpare : String → List Event → Type 0
AllSpare id [] = Unit
AllSpare id (e ∷ es) = Spares id e × AllSpare id es

schedule-IsLost :
    (s : Service) (job : CronJob) (now : ℕ) (id : String)
    → (job.id == id) ≡ false
    → IsLost id s
    → IsLost id (schedule s job now)
schedule-IsLost s job now id apart (no_timer, no_run) = (
  λ t h. no_timer t (ground (arith, schedule_timers s job now id)),
  λ n r h. no_run n r (ap (get n) (sym (schedule_runs s job now)) ∙ h),
)

started-HasNoRun :
    (s : Service) (n : ℕ) (job : CronJob) (timed : Bool) (id : String)
    → (timed ≡ true → (job.id == id) ≡ false)
    → HasNoRun id s
    → HasNoRun id (started s n job timed)
started-HasNoRun s n job timed id apart h m r there is_timed =
    let new : Run = record { job = job; timed = timed } in
    elim (Bool-cases (n == m)) [
      | inl hit ↦
          let one : new ≡ r = ground (arith, get-set n m new s.runs) in
          ap (λ (x : Run). x.job.id == id) (sym one)
          ∙ apart (ap (λ (x : Run). x.timed) one ∙ is_timed)
      | inr other ↦ h m r (ground (arith, get-set n m new s.runs)) is_timed
    ]

-- Fewer timers and fewer runs.
fewer-IsLost :
    (s s' : Service) (id : String)
    → ((t : Timer) → get id s'.timers ≡ some t → get id s.timers ≡ some t)
    → ((n : ℕ) (r : Run) → get n s'.runs ≡ some r → get n s.runs ≡ some r)
    → IsLost id s
    → IsLost id s'
fewer-IsLost s s' id ht hr (no_timer, no_run) =
    (λ t h. no_timer t (ht t h), λ n r h. no_run n r (hr n r h))

fired-IsLost :
    (s : Service) (other : String) (n : ℕ) (t : Timer) (id : String)
    → get other s.timers ≡ some t
    → t.job.id ≡ other
    → t.pending ≡ true
    → IsLost id s
    → IsLost id (fired s other n t)
fired-IsLost s other n t id there named waits (no_timer, no_run) = elim (Bool-cases (other == id)) [
  | inl hit ↦
      let waiting = no_timer t (ap (λ i. get i s.timers) (sym ((==_iff other id).0 hit)) ∙ there) in
      absurd (ground arith)
  | inr apart ↦
      let over = record t { pending = false } in
      (
        λ u h. no_timer u (ground (arith, get-set other id over s.timers)),
        started-HasNoRun (record s { timers = set other over s.timers }) n t.job true id
            (λ _. ap (λ i. i == id) named ∙ apart) no_run,
      )
]

settle-IsLost :
    (s : Service) (n : ℕ) (failed : Bool) (now : ℕ) (id : String)
    → IsLost id s
    → IsLost id (settle s n failed now)
unfolding persist_run
settle-IsLost s n failed now id lost = elim (settle_lem s n failed now) [
  | inl same ↦ subst (IsLost id) (sym same) lost
  | inr (r, there, inl (et, er, _)) ↦
      fewer-IsLost s (settle s n failed now) id (λ t h. ap (get id) (sym et) ∙ h)
        (λ m r' h. get-delete-some n m s.runs r' (ap (get m) (sym er) ∙ h)) lost
  | inr (r, there, inr (again, timed)) ↦
      let next = next_run r.job now in
      let s' = persist_run (persist_run (ended s n) next) next in
      subst (IsLost id) (sym again) (
        schedule-IsLost s' next now id (lost.1 n r there timed)
          (fewer-IsLost s s' id (λ t h. h) (λ m r' h. get-delete-some n m s.runs r' h) lost))
]

remove-IsLost : (s : Service) (other id : String) → IsLost id s → IsLost id (remove s other)
unfolding remove
remove-IsLost s other id =
    fewer-IsLost s (remove s other) id (λ t h. get-delete-some other id s.timers t h) (λ n r h. h)

apply-IsLost :
    (s : Service) (e : Event) (id : String)
    → IsArmed s
    → Spares id e
    → IsLost id s
    → IsLost id (apply s e)
unfolding apply
apply-IsLost s (creates other now body) id a apart lost = elim (create_lem s other now body) [
  | inl same ↦ subst (IsLost id) (sym same) lost
  | inr (job, named, made) ↦
      let away : (job.id == id) ≡ false = ap (λ i. i == id) named ∙ apart in
      subst (IsLost id) (sym made) (schedule-IsLost (stored s job) job now id away lost)
]
apply-IsLost s (removes other) id a spares lost = remove-IsLost s other id lost
apply-IsLost s (runs_now other n) id a spares (no_timer, no_run) = elim (run_now_lem s other n) [
  | inl same ↦ subst (IsLost id) (sym same) (no_timer, no_run)
  | inr (job, made) ↦
      subst (IsLost id) (sym made)
        (no_timer, started-HasNoRun s n job false id (λ e. absurd (ground arith)) no_run)
]
apply-IsLost s (fires other n) id a spares lost = elim (fire_lem s other n) [
  | inl same ↦ subst (IsLost id) (sym same) lost
  | inr (t, there, waits, made) ↦
      let (_, named) = a.timers_enabled other t there in
      subst (IsLost id) (sym made) (fired-IsLost s other n t id there named waits lost)
]
apply-IsLost s (settles n failed now) id a spares lost = settle-IsLost s n failed now id lost

run-IsLost :
    (s : Service) (es : List Event) (id : String)
    → IsArmed s
    → AllSpare id es
    → IsLost id s
    → IsLost id (run s es)
unfolding run
run-IsLost s [] id a spares lost = lost
run-IsLost s (e ∷ es) id a (spares, rest) lost =
    run-IsLost (apply s e) es id (apply-IsArmed s e a) rest (apply-IsLost s e id a spares lost)

settle_failed :
    (s : Service) (n now : ℕ) (r : Run) → get n s.runs ≡ some r → settle s n true now ≡ ended s n
unfolding settle
settle_failed s n now r there = ground arith

settle_well :
    (s : Service) (n now : ℕ) (r : Run)
    → get n s.runs ≡ some r
    → r.timed ≡ true
    → settle s n false now ≡ rearmed s n r now
unfolding settle
settle_well s n now r there timed = ground arith

schedule_jobs : (s : Service) (job : CronJob) (now : ℕ) → (schedule s job now).jobs ≡ s.jobs
unfolding schedule
schedule_jobs s job now = ground arith

-- A run that the job's timer started and that throws, the only one of the job and with no other
-- timer, is the end of the job: over any history without a job of the same id, no timer of it is
-- ever set and no timer starts it again, although it may stay stored and enabled.
pub failed_never_again :
    (s : Service) (id : String) (n now : ℕ) (r : Run) (es : List Event)
    → IsArmed s
    → get n s.runs ≡ some r
    → HasNoTimer id s
    → ((m : ℕ) (r' : Run) → get m s.runs ≡ some r' → r'.timed ≡ true → r'.job.id ≡ id → m ≡ n)
    → AllSpare id es
    → (IsLost id (run (settle s n true now) es)) × ((settle s n true now).jobs ≡ s.jobs)
unfolding apply
failed_never_again s id n now r es a there no_timer only spares =
    let over = settle_failed s n now r there in
    let lost : IsLost id (ended s n) = (
      no_timer,
      λ m r' h timed. elim (Bool-cases (r'.job.id == id)) [
        | inr apart ↦ apart
        | inl hit ↦
            let same =
              only m r' (get-delete-some n m s.runs r' h) timed ((==_iff r'.job.id id).0 hit) in
            absurd (ground (arith, get-delete n m s.runs, (==_iff n m).1 (sym same)))
      ],
    ) in
    (
      run-IsLost (settle s n true now) es id (apply-IsArmed s (settles n true now) a) spares
          (subst (IsLost id) (sym over) lost),
      ap (λ (x : Service). x.jobs) over,
    )

-- The job of a run that its timer started is stored again when the run ends well, and its timer is
-- set, although the job was removed while the run was under way.
pub removed_returns :
    (s : Service) (n now : ℕ) (r : Run)
    → IsArmed s
    → get n s.runs ≡ some r
    → r.timed ≡ true
    → (get r.job.id (settle (remove s r.job.id) n false now).jobs ≡ some (next_run r.job now))
      × (get r.job.id (settle (remove s r.job.id) n false now).timers
          ≡ some (armed (next_run r.job now) now))
unfolding remove persist_run
removed_returns s n now r a there timed =
    let next = next_run r.job now in
    let removed = remove s r.job.id in
    let again = settle_well removed n now r there timed in
    let s' = persist_run (persist_run (ended removed n) next) next in
    let on = a.runs_enabled n r there timed in
    let jobs = delete r.job.id s.jobs in
    (
      ap (λ (x : Service). get r.job.id x.jobs) again
          ∙ ap (get r.job.id) (schedule_jobs s' next now)
          ∙ ground
              (arith, get-set r.job.id r.job.id next (set r.job.id next jobs), ==_refl r.job.id),
      ap (λ (x : Service). get r.job.id x.timers) again
          ∙ ground (arith, schedule_timers s' next now r.job.id, ==_refl r.job.id),
    )
