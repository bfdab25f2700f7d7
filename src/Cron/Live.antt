-- ===== src/Cron/Live.antt =====
-- A job whose timer is set stays live as long as its runs do not fail and it is not removed.
use agapornis_api.Common.{
  ℕ, String, Bool, true, false, ◌≡◌, refl, sym, ap, ◌∙◌, subst, arith, none, some, ◌⊎◌, inl, inr,
  List, [], ◌∷◌, ◌==◌, ==_iff, string_eq, nat_eq, Bool-cases,
}
use agapornis_api.Common.Dict.{get, set, delete, get-set, get-delete}
use agapornis_api.Cron.{
  CronJob, Run, Service, Timer, armed, next_run, persist_run, remove, schedule, settle, started,
  stored,
}
use agapornis_api.Cron.Effects.{
  create_lem, ended, fire_lem, fired, run_now_lem, schedule_runs, schedule_timers, settle_lem,
}
use agapornis_api.Cron.Events.{
  AllFresh, Event, IsArmed, IsFresh, apply, creates, fires, removes, run, runs_now, settles,
}
use agapornis_api.Cron.Armed.{apply-IsArmed}

-- A timer of the job is set, or a run that its timer started is under way.
abbrev pub HasTimer : String → Service → Type 0
HasTimer id s = (t : Timer) × (get id s.timers ≡ some t) × (t.pending ≡ true)

abbrev pub HasRun : String → Service → Type 0
HasRun id s = (n : ℕ) × (r : Run) × (get n s.runs ≡ some r) × (r.timed ≡ true) × (r.job.id ≡ id)

abbrev pub IsLive : String → Service → Type 0
IsLive id s = HasTimer id s ⊎ HasRun id s

-- The event is no creation or removal of the job, and no failure of a run that its timer started.
abbrev pub Spares : String → Service → Event → Type 0
Spares id s (creates other now body) = (other == id) ≡ false
Spares id s (removes other) = (other == id) ≡ false
Spares id s (settles n failed now) =
    (r : Run) → get n s.runs ≡ some r → r.timed ≡ true → r.job.id ≡ id → failed ≡ false
Spares id s _ = Unit

abbrev pub AllSpare : String → Service → List Event → Type 0
AllSpare id s [] = Unit
AllSpare id s (e ∷ es) = Spares id s e × AllSpare id (apply s e) es

-- What another job's scheduling leaves, and what this one's gives.
schedule-IsLive :
    (s : Service) (job : CronJob) (now : ℕ) (id : String)
    → job.enabled ≡ true
    → IsLive id s
    → IsLive id (schedule s job now)
schedule-IsLive s job now id on (inr (n, r, there, timed, named)) =
    inr (n, r, ap (get n) (schedule_runs s job now) ∙ there, timed, named)
schedule-IsLive s job now id on (inl (t, there, waits)) = elim (Bool-cases (job.id == id)) [
  | inl hit ↦ inl (armed job now, ground (arith, schedule_timers s job now id), refl)
  | inr apart ↦ inl (t, ground (arith, schedule_timers s job now id), waits)
]

apart-IsLive :
    (s : Service) (job : CronJob) (now : ℕ) (id : String)
    → (job.id == id) ≡ false
    → IsLive id s
    → IsLive id (schedule s job now)
apart-IsLive s job now id apart (inr (n, r, there, timed, named)) =
    inr (n, r, ap (get n) (schedule_runs s job now) ∙ there, timed, named)
apart-IsLive s job now id apart (inl (t, there, waits)) =
    inl (t, ground (arith, schedule_timers s job now id), waits)

started-IsLive :
    (s : Service) (n : ℕ) (job : CronJob) (timed : Bool) (id : String)
    → get n s.runs ≡ none
    → IsLive id s
    → IsLive id (started s n job timed)
started-IsLive s n job timed id fresh (inl timer) = inl timer
started-IsLive s n job timed id fresh (inr (m, r, there, is_timed, named)) =
    elim (Bool-cases (n == m)) [
      | inl hit ↦
          let e : none ≡ some r = sym fresh ∙ ap (λ i. get i s.runs) ((==_iff n m).0 hit) ∙ there in
          absurd (ground arith)
      | inr apart ↦ inr (
        m,
        r,
        ground (arith, get-set n m (record { job = job; timed = timed }) s.runs),
        is_timed,
        named,
      )
    ]

fired-IsLive :
    (s : Service) (other : String) (n : ℕ) (t : Timer) (id : String)
    → get other s.timers ≡ some t
    → t.job.id ≡ other
    → get n s.runs ≡ none
    → IsLive id s
    → IsLive id (fired s other n t)
fired-IsLive s other n t id there named fresh live = elim (Bool-cases (other == id)) [
  | inl hit ↦
      let r : Run = record { job = t.job; timed = true } in
      inr (n, r, ground (arith, get-set n n r s.runs), refl, named ∙ (==_iff other id).0 hit)
  | inr apart ↦ elim live [
    | inr (m, r, running, timed, is_id) ↦
        started-IsLive (record s { timers = set other (record t { pending = false }) s.timers }) n
          t.job true id fresh (inr (m, r, running, timed, is_id))
    | inl (u, waiting, pending) ↦
        inl (u, ground (arith, get-set other id (record t { pending = false }) s.timers), pending)
  ]
]

-- A run that is over, but is not the one that keeps the job live.
ended-IsLive :
    (s s' : Service) (n : ℕ) (r : Run) (id : String)
    → s'.timers ≡ s.timers
    → s'.runs ≡ delete n s.runs
    → get n s.runs ≡ some r
    → (r.timed ≡ true → (r.job.id == id) ≡ false)
    → IsLive id s
    → IsLive id s'
ended-IsLive s s' n r id et er there other (inl (t, waiting, pending)) =
    inl (t, ap (get id) et ∙ waiting, pending)
ended-IsLive s s' n r id et er there other (inr (m, r', running, timed, named)) =
    elim (Bool-cases (n == m)) [
      | inl hit ↦
          let e : some r ≡ some r' =
            sym there ∙ ap (λ i. get i s.runs) ((==_iff n m).0 hit) ∙ running in
          let one : r ≡ r' = ground arith in
          let is_timed = ap (λ (x : Run). x.timed) one ∙ timed in
          let is_id = ap (λ (x : Run). x.job.id) one ∙ named in
          absurd (ground (arith, other is_timed, (==_iff r.job.id id).1 is_id))
      | inr apart ↦ inr (m, r', ap (get m) er ∙ ground (arith, get-delete n m s.runs), timed, named)
    ]

settle-IsLive :
    (s : Service) (n : ℕ) (failed : Bool) (now : ℕ) (id : String)
    → IsArmed s
    → Spares id s (settles n failed now)
    → IsLive id s
    → IsLive id (settle s n failed now)
unfolding persist_run
settle-IsLive s n failed now id a spares live = elim (settle_lem s n failed now) [
  | inl same ↦ subst (IsLive id) (sym same) live
  | inr (r, there, inl (et, er, why)) ↦
      ended-IsLive s (settle s n failed now) n r id et er there
        (λ timed. elim (Bool-cases (r.job.id == id)) [
          | inr apart ↦ apart
          | inl hit ↦
              let fine = spares r there timed ((==_iff r.job.id id).0 hit) in absurd (ground arith)
        ])
        live
  | inr (r, there, inr (again, timed)) ↦
      let next = next_run r.job now in
      let s' = persist_run (persist_run (ended s n) next) next in
      subst (IsLive id) (sym again) (elim (Bool-cases (r.job.id == id)) [
        | inl hit ↦
            let on = a.runs_enabled n r there timed in
            inl (armed next now, ground (arith, schedule_timers s' next now id), refl)
        | inr apart ↦
            apart-IsLive s' next now id apart
              (ended-IsLive s s' n r id refl refl there (λ _. apart) live)
      ])
]

remove-IsLive :
    (s : Service) (other id : String)
    → (other == id) ≡ false
    → IsLive id s
    → IsLive id (remove s other)
unfolding remove
remove-IsLive s other id apart (inl (t, waiting, pending)) =
    inl (t, ground (arith, get-delete other id s.timers), pending)
remove-IsLive s other id apart (inr running) = inr running

apply-IsLive :
    (s : Service) (e : Event) (id : String)
    → IsArmed s
    → IsFresh s e
    → Spares id s e
    → IsLive id s
    → IsLive id (apply s e)
unfolding apply
apply-IsLive s (creates other now body) id a fresh apart live = elim (create_lem s other now body) [
  | inl same ↦ subst (IsLive id) (sym same) live
  | inr (job, named, made) ↦
      let away : (job.id == id) ≡ false = ap (λ i. i == id) named ∙ apart in
      subst (IsLive id) (sym made) (apart-IsLive (stored s job) job now id away live)
]
apply-IsLive s (removes other) id a fresh apart live = remove-IsLive s other id apart live
apply-IsLive s (runs_now other n) id a fresh spares live = elim (run_now_lem s other n) [
  | inl same ↦ subst (IsLive id) (sym same) live
  | inr (job, made) ↦ subst (IsLive id) (sym made) (started-IsLive s n job false id fresh live)
]
apply-IsLive s (fires other n) id a fresh spares live = elim (fire_lem s other n) [
  | inl same ↦ subst (IsLive id) (sym same) live
  | inr (t, there, _, made) ↦
      let (_, named) = a.timers_enabled other t there in
      subst (IsLive id) (sym made) (fired-IsLive s other n t id there named fresh live)
]
apply-IsLive s (settles n failed now) id a fresh spares live =
    settle-IsLive s n failed now id a spares live

-- A job that has its timer set, or whose timer's run is under way, stays so over any history in
-- which it is not removed and no run that its timer started fails, whatever else is created,
-- removed, started by hand and ended in between. New ids and run numbers are new.
pub run-IsLive :
    (s : Service) (es : List Event) (id : String)
    → IsArmed s
    → AllFresh s es
    → AllSpare id s es
    → IsLive id s
    → IsLive id (run s es)
unfolding run
run-IsLive s [] id a fresh spares live = live
run-IsLive s (e ∷ es) id a (fresh, later) (spares, rest) live =
    run-IsLive (apply s e) es id (apply-IsArmed s e a) later rest
      (apply-IsLive s e id a fresh spares live)
