-- ===== src/Cron/Armed.antt =====
-- Timers and the runs that they start are of enabled jobs, over any history.
use agapornis_api.Common.{
  ℕ, String, Bool, true, false, ◌≡◌, sym, ap, ◌∙◌, subst, arith, some, inl, inr, ◌==◌, ==_iff,
  string_eq, nat_eq, Bool-cases,
}
use agapornis_api.Common.Dict.{get, set, get-set, get-delete-some}
use agapornis_api.Cron.{
  CronJob, Run, Service, Timer, armed, next_run, persist_run, remove, schedule, settle, started,
  stored,
}
use agapornis_api.Cron.Effects.{
  create_lem, ended, fire_lem, fired, run_now_lem, schedule_runs, schedule_timers, settle_lem,
}
use agapornis_api.Cron.Events.{Event, IsArmed, apply, creates, fires, removes, runs_now, settles}

schedule-IsArmed :
    (s : Service) (job : CronJob) (now : ℕ) → IsArmed s → IsArmed (schedule s job now)
schedule-IsArmed s job now a = record {
  timers_enabled = λ k t h. elim (Bool-cases (job.id == k)) [
    | inr apart ↦ a.timers_enabled k t (ground (arith, schedule_timers s job now k))
    | inl hit ↦ elim (Bool-cases job.enabled) [
      | inl on ↦
          let one : armed job now ≡ t = ground (arith, schedule_timers s job now k) in
          (
            ap (λ (x : Timer). x.job.enabled) (sym one) ∙ on,
            ap (λ (x : Timer). x.job.id) (sym one) ∙ (==_iff job.id k).0 hit,
          )
      | inr off ↦ absurd (ground (arith, schedule_timers s job now k))
    ]
  ];
  runs_enabled = λ n r h. a.runs_enabled n r (ap (get n) (sym (schedule_runs s job now)) ∙ h);
}

-- Starting a run of a job that is enabled, if the run is timed.
started-IsArmed :
    (s : Service) (n : ℕ) (job : CronJob) (timed : Bool)
    → (timed ≡ true → job.enabled ≡ true)
    → IsArmed s
    → IsArmed (started s n job timed)
started-IsArmed s n job timed on a = record {
  timers_enabled = a.timers_enabled;
  runs_enabled = λ m r h is_timed. elim (Bool-cases (n == m)) [
    | inl hit ↦
        let one : record { job = job; timed = timed } ≡ r =
          ground (arith, get-set n m (record { job = job; timed = timed }) s.runs) in
        ap (λ (x : Run). x.job.enabled) (sym one) ∙ on (ap (λ (x : Run). x.timed) one ∙ is_timed)
    | inr apart ↦
        a.runs_enabled m r
          (ground (arith, get-set n m (record { job = job; timed = timed }) s.runs)) is_timed
  ];
}

fired-IsArmed :
    (s : Service) (id : String) (n : ℕ) (t : Timer)
    → get id s.timers ≡ some t
    → IsArmed s
    → IsArmed (fired s id n t)
fired-IsArmed s id n t there a =
    let over : Timer = record t { pending = false } in
    let (on, named) = a.timers_enabled id t there in
    started-IsArmed (record s { timers = set id over s.timers }) n t.job true (λ _. on)
      (record {
        timers_enabled = λ k u h. elim (Bool-cases (id == k)) [
          | inl hit ↦
              let one : over ≡ u = ground (arith, get-set id k over s.timers) in
              (
                ap (λ (x : Timer). x.job.enabled) (sym one) ∙ on,
                ap (λ (x : Timer). x.job.id) (sym one) ∙ named ∙ (==_iff id k).0 hit,
              )
          | inr apart ↦ a.timers_enabled k u (ground (arith, get-set id k over s.timers))
        ];
        runs_enabled = a.runs_enabled;
      })

-- Fewer timers and fewer runs.
fewer-IsArmed :
    (s s' : Service)
    → ((k : String) (t : Timer) → get k s'.timers ≡ some t → get k s.timers ≡ some t)
    → ((n : ℕ) (r : Run) → get n s'.runs ≡ some r → get n s.runs ≡ some r)
    → IsArmed s
    → IsArmed s'
fewer-IsArmed s s' ht hr a = record {
  timers_enabled = λ k t h. a.timers_enabled k t (ht k t h);
  runs_enabled = λ n r h. a.runs_enabled n r (hr n r h);
}

ended-IsArmed : (s : Service) (n : ℕ) → IsArmed s → IsArmed (ended s n)
ended-IsArmed s n =
    fewer-IsArmed s (ended s n) (λ k t h. h) (λ m r h. get-delete-some n m s.runs r h)

stored-IsArmed :
    (s : Service) (job : CronJob) → IsArmed s → IsArmed (persist_run (persist_run s job) job)
unfolding persist_run
stored-IsArmed s job =
    fewer-IsArmed s (persist_run (persist_run s job) job) (λ k t h. h) (λ n r h. h)

settle-IsArmed :
    (s : Service) (n : ℕ) (failed : Bool) (now : ℕ) → IsArmed s → IsArmed (settle s n failed now)
settle-IsArmed s n failed now a = elim (settle_lem s n failed now) [
  | inl same ↦ subst IsArmed (sym same) a
  | inr (r, there, inl (et, er, _)) ↦
      fewer-IsArmed s (settle s n failed now) (λ k t h. ap (get k) (sym et) ∙ h)
        (λ m r' h. get-delete-some n m s.runs r' (ap (get m) (sym er) ∙ h)) a
  | inr (r, there, inr (again, _)) ↦ subst IsArmed (sym again) (
      schedule-IsArmed
        (persist_run (persist_run (ended s n) (next_run r.job now)) (next_run r.job now))
        (next_run r.job now) now
        (stored-IsArmed (ended s n) (next_run r.job now) (ended-IsArmed s n a)))
]

remove-IsArmed : (s : Service) (id : String) → IsArmed s → IsArmed (remove s id)
unfolding remove
remove-IsArmed s id =
    fewer-IsArmed s (remove s id) (λ k t h. get-delete-some id k s.timers t h) (λ n r h. h)

pub apply-IsArmed : (s : Service) (e : Event) → IsArmed s → IsArmed (apply s e)
unfolding apply
apply-IsArmed s (creates id now body) a = elim (create_lem s id now body) [
  | inl same ↦ subst IsArmed (sym same) a
  | inr (job, _, made) ↦ subst IsArmed (sym made) (
      schedule-IsArmed (stored s job) job now
        (fewer-IsArmed s (stored s job) (λ k t h. h) (λ n r h. h) a))
]
apply-IsArmed s (removes id) a = remove-IsArmed s id a
apply-IsArmed s (runs_now id n) a = elim (run_now_lem s id n) [
  | inl same ↦ subst IsArmed (sym same) a
  | inr (job, made) ↦
      subst IsArmed (sym made) (started-IsArmed s n job false (λ e. absurd (ground arith)) a)
]
apply-IsArmed s (fires id n) a = elim (fire_lem s id n) [
  | inl same ↦ subst IsArmed (sym same) a
  | inr (t, there, _, made) ↦ subst IsArmed (sym made) (fired-IsArmed s id n t there a)
]
apply-IsArmed s (settles n failed now) a = settle-IsArmed s n failed now a
