-- ===== src/Schedules/Service/Timers/Runs.antt =====
-- Timers that go off and executions that end, in server-schedules.service.ts.
use agapornis_api.Common.{
  ℕ, String, Bool, true, false, Option, none, some, ◌≡◌, refl, sym, subst, ◌⊎◌, inl, inr, ==_iff,
  ==_refl, Bool-cases, Option-cases, string_eq, nat_eq, arith, ok, err, ltb,
}
use agapornis_api.Common.Dict.{get, set, delete, get-set, get-delete}
use agapornis_api.Schedules.Config.{already_running}
use agapornis_api.Schedules.Service.{
  Service, Entry, Timer, max_timer_ms, Execution, arm, settle_scheduled, execute_exclusive,
  run_scheduled, fire, settle,
}
use agapornis_api.Schedules.Service.Timers.Slots.{slots, armed, slots-arm}
use agapornis_api.Schedules.Service.Timers.Good.{
  IsGood, AllGood, GoodBut, AllGood-cases, IsKeyed, IsTimed, IsServed, RunIsKeyed, Sets,
  Sets-AllGood, Sets-GoodBut, armed-IsGood,
}
use agapornis_api.Schedules.Service.Timers.Ops.{settle_scheduled-AllGood}

-- Another timer or execution at one id.
with_timer-Sets :
    (s : Service) (id : String) (t : Timer)
    → Sets id (record (slots s id) { timer = some t }) s (record s { timers = set id t s.timers })
unfolding slots
with_timer-Sets s id t k = ground (arith, get-set id k t s.timers, ==_iff id k)

with_execution-Sets :
    (s : Service) (id : String) (x : Execution)
    → Sets id
        (record (slots s id) { execution = some x })
        s
        (record s { executions = set id x s.executions })
unfolding slots
with_execution-Sets s id x k = ground (arith, get-set id k x s.executions, ==_iff id k)

without_execution-Sets :
    (s : Service) (id : String)
    → Sets id
        (record (slots s id) { execution = none })
        s
        (record s { executions = delete id s.executions })
unfolding slots
without_execution-Sets s id k = ground (arith, get-delete id k s.executions, ==_iff id k)

arm-Sets :
    (s : Service) (id : String) (e : Entry) (now : ℕ)
    → e.schedule.id ≡ id
    → Sets id (record (slots s id) { timer = armed e now }) s (arm s e now)
arm-Sets s id e now keyed k =
    ground (arith, slots-arm s e now k, ==_iff id k, ==_iff e.schedule.id k)

-- `schedule` is taken as running.
abbrev pub started : Service → Entry → Bool → Service
started s e scheduled = record s {
  executions = set e.schedule.id (record { entry = e; scheduled = scheduled }) s.executions;
}

pub execute_exclusive_lem :
    (s : Service) (e : Entry) (scheduled : Bool)
    → ((get e.schedule.id s.executions ≡ none)
        × (execute_exclusive s e scheduled ≡ ok (started s e scheduled)))
      ⊎ ((x : Execution) × (get e.schedule.id s.executions ≡ some x)
          × (execute_exclusive s e scheduled ≡ err already_running))
unfolding execute_exclusive
execute_exclusive_lem s e scheduled = elim (Option-cases (get e.schedule.id s.executions)) [
  | inl free ↦ inl (free, ground arith)
  | inr (x, busy) ↦ inr (x, busy, ground arith)
]

pub run_scheduled_lem :
    (s : Service) (e : Entry) (now : ℕ)
    → (run_scheduled s e now ≡ started s e true)
      ⊎ (run_scheduled s e now ≡ settle_scheduled s e true now)
unfolding run_scheduled
run_scheduled_lem s e now = elim (execute_exclusive_lem s e true) [
  | inl (free, e') ↦ inl (ground arith)
  | inr (x, busy, e') ↦ inr (ground arith)
]

started-Sets :
    (s : Service) (id : String) (e : Entry) (scheduled : Bool)
    → e.schedule.id ≡ id
    → Sets id
        (record (slots s id) { execution = some (record { entry = e; scheduled = scheduled }) })
        s
        (started s e scheduled)
unfolding slots
started-Sets s id e scheduled keyed k = ground (
  arith,
  get-set e.schedule.id k (record { entry = e; scheduled = scheduled }) s.executions,
  ==_iff id k,
  ==_iff e.schedule.id k,
)

pub run_scheduled-AllGood :
    (s : Service) (id : String) (e : Entry) (now : ℕ)
    → e.schedule.id ≡ id
    → (slots s id).entry ≡ some e
    → RunIsKeyed id (slots s id).execution
    → IsTimed (some e) (slots s id).timer
    → GoodBut id s
    → AllGood (run_scheduled s e now)
run_scheduled-AllGood s id e now keyed stored run timed others = elim (run_scheduled_lem s e now) [
  | inl same ↦ subst AllGood (sym same) (
      Sets-AllGood s _ id _ (started-Sets s id e true keyed)
        (rw stored (keyed, keyed, timed, λ _. inr (refl, refl))) others)
  | inr same ↦ subst AllGood (sym same) (
      settle_scheduled-AllGood s id e true now keyed (rw stored keyed) run
        (λ away. absurd (cc (away e (unfold slots in stored), ==_refl e.object))) others)
]

-- The three ways that a timer goes off.
pub fire_lem :
    (s : Service) (id : String) (now : ℕ)
    → (fire s id now ≡ s)
      ⊎ ((t : Timer) × (get id s.timers ≡ some t)
          × (t.pending ≡ true)
          × (let s' : Service = record s {
            timers = set id (record t { pending = false }) s.timers;
          } in
              (fire s id now ≡ arm s' t.entry now)
              ⊎ (fire s id now ≡ run_scheduled s' t.entry now)))
unfolding fire
fire_lem s id now = elim (Option-cases (get id s.timers)) [
  | inl gone ↦ inl (ground arith)
  | inr (t, found) ↦ elim (Bool-cases t.pending) [
    | inr fired ↦ inl (ground arith)
    | inl pending ↦ inr (
      t,
      found,
      pending,
      elim (Bool-cases (ltb max_timer_ms t.due_in)) [
        | inl far ↦ inl (ground arith)
        | inr near ↦ inr (ground arith)
      ],
    )
  ]
]

pub fire-AllGood : (s : Service) (id : String) (now : ℕ) → AllGood s → AllGood (fire s id now)
unfolding slots
fire-AllGood s id now good = elim (fire_lem s id now) [
  | inl same ↦ subst AllGood (sym same) good
  | inr (t, found, pending, ways) ↦
      let t' : Timer = record t { pending = false } in
      let s' : Service = record s { timers = set id t' s.timers } in
      let here = good id in
      let timed : IsTimed (get id s.schedules) (some t) =
        subst (IsTimed (get id s.schedules)) found here.2 in
      let stored : get id s.schedules ≡ some t.entry = (timed pending).0 in
      let keyed : t.entry.schedule.id ≡ id = subst (IsKeyed id) stored here.0 in
      let others : GoodBut id s' = Sets-GoodBut s s' id _ (with_timer-Sets s id t') good in
      let fired : get id s'.timers ≡ some t' =
        ground (arith, get-set id id t' s.timers, ==_refl id) in
      elim ways [
        | inl again ↦ subst AllGood (sym again) (
            Sets-AllGood s' (arm s' t.entry now) id _ (arm-Sets s' id t.entry now keyed)
              (subst
                (λ o. IsGood id (record {
                  entry = o;
                  timer = armed t.entry now;
                  execution = get id s.executions;
                }))
                (sym stored) (armed-IsGood id t.entry now (get id s.executions) keyed here.1))
              others)
        | inr runs ↦ subst AllGood (sym runs) (
            run_scheduled-AllGood s' id t.entry now keyed stored here.1
              (subst (IsTimed (some t.entry)) (sym fired) (λ (p : false ≡ true). cc)) others)
      ]
]

pub settle_lem :
    (s : Service) (id : String) (failed : Bool) (now : ℕ)
    → (settle s id failed now ≡ s)
      ⊎ ((x : Execution) × (get id s.executions ≡ some x)
          × (let s' : Service = record s { executions = delete id s.executions } in
              (x.scheduled ≡ false) × (settle s id failed now ≡ s')
              ⊎ (settle s id failed now ≡ settle_scheduled s' x.entry failed now)))
unfolding settle
settle_lem s id failed now = elim (Option-cases (get id s.executions)) [
  | inl gone ↦ inl (ground arith)
  | inr (x, found) ↦ elim (Bool-cases x.scheduled) [
    | inl waits ↦ inr (x, found, inr (ground arith))
    | inr alone ↦ inr (x, found, inl (alone, ground arith))
  ]
]

-- Without an execution that is not the scheduled run of the stored object.
still-IsServed :
    (e : Option Entry) (t : Option Timer) (x : Execution)
    → IsServed e t (some x)
    → ((y : Entry) → e ≡ some y → x.scheduled ≡ true → x.entry ≡ y → ⊥)
    → IsServed e t none
still-IsServed none t x h away = tt
still-IsServed (some y) t x h away =
    λ on. elim (h on) [ inl a ↦ inl a | inr (p, q) ↦ absurd (away y refl p q) ]

pub settle-AllGood :
    (s : Service) (id : String) (failed : Bool) (now : ℕ)
    → AllGood s
    → AllGood (settle s id failed now)
unfolding slots
settle-AllGood s id failed now good = elim (settle_lem s id failed now) [
  | inl same ↦ subst AllGood (sym same) good
  | inr (x, found, ways) ↦
      let s' : Service = record s { executions = delete id s.executions } in
      let here = good id in
      let keyed : x.entry.schedule.id ≡ id = subst (RunIsKeyed id) found here.1 in
      let served : IsServed (get id s.schedules) (get id s.timers) (some x) =
        subst (IsServed (get id s.schedules) (get id s.timers)) found here.3 in
      let others : GoodBut id s' = Sets-GoodBut s s' id _ (without_execution-Sets s id) good in
      let ended : get id s'.executions ≡ none =
        ground (arith, get-delete id id s.executions, ==_refl id) in
      let rest =
        λ (h : (y : Entry) → get id s.schedules ≡ some y → x.scheduled ≡ true → x.entry ≡ y → ⊥).
          subst
            (λ o.
              IsGood id
                (record { entry = get id s.schedules; timer = get id s.timers; execution = o }))
            (sym ended)
            (
              here.0,
              tt,
              here.2,
              still-IsServed (get id s.schedules) (get id s.timers) x served h,
            ) in
      elim ways [
        | inl (alone, left) ↦
            subst AllGood (sym left) (AllGood-cases s' id (rest (λ y h p q. absurd (cc))) others)
        | inr resumed ↦ subst AllGood (sym resumed) (
            settle_scheduled-AllGood s' id x.entry failed now keyed here.0
              (subst (RunIsKeyed id) (sym ended) tt)
              (λ away. rest (λ y h p q. cc (away y h, ==_refl x.entry.object, q))) others)
      ]
]

IsServed-more :
    (e : Option Entry) (t : Option Timer) (x : Option Execution)
    → IsServed e t none
    → IsServed e t x
IsServed-more none t x h = tt
IsServed-more (some y) t x h = λ on. elim (h on) [ inl a ↦ inl a | inr b ↦ absurd b ]

pub run_now-AllGood :
    (s : Service) (e : Entry) (scheduled : Bool)
    → (slots s e.schedule.id).entry ≡ some e
    → AllGood s
    → get e.schedule.id s.executions ≡ none
    → AllGood (started s e scheduled)
unfolding slots
run_now-AllGood s e scheduled stored good free =
    let id = e.schedule.id in
    let here = good id in
    Sets-AllGood s (started s e scheduled) id _ (started-Sets s id e scheduled refl)
      (
        here.0,
        refl,
        here.2,
        IsServed-more (get id s.schedules) (get id s.timers) _
            (subst (IsServed (get id s.schedules) (get id s.timers)) free here.3),
      )
      (λ k d. good k)
