-- ===== src/Schedules/Service/Timers/Ops.antt =====
-- Every call of server-schedules.service.ts keeps the ids in order.
use agapornis_api.Common.{
  ℕ, suc, String, Bool, true, false, none, some, ◌≡◌, refl, sym, subst, if◌then◌else◌, ◌⊎◌, inl,
  inr, ◌==◌, ==_iff, Bool-cases, Option-cases, string_eq, nat_eq, arith, leb, ◌&&◌,
}
use agapornis_api.Common.Dict.{get, delete, get-delete}
use agapornis_api.Schedules.Config.{failure_count, max_consecutive_failures}
use agapornis_api.Schedules.Service.{
  Service, Entry, Schedule, arm, store, after_run, next_run, settle_scheduled,
}
use agapornis_api.Schedules.Service.Timers.Slots.{slots}
use agapornis_api.Schedules.Service.Timers.Good.{
  IsGood, AllGood, GoodBut, AllGood-cases, IsKeyed, RunIsKeyed, Sets-AllGood, store-arm-Sets,
  armed-IsGood,
}

pub store-arm-AllGood :
    (s : Service) (id : String) (x : Schedule) (now : ℕ)
    → x.id ≡ id
    → RunIsKeyed id (slots s id).execution
    → GoodBut id s
    → AllGood (arm (store s id x).1 (record { object = s.fresh; schedule = x }) now)
store-arm-AllGood s id x now keyed run others =
    Sets-AllGood s _ id _ (store-arm-Sets s id x now keyed)
      (armed-IsGood id (record { object = s.fresh; schedule = x }) now (slots s id).execution keyed
        run)
      others

-- A schedule that is taken out with its timer.
abbrev pub dropped : Service → String → Service
dropped s id = record s { schedules = delete id s.schedules; timers = delete id s.timers }

pub dropped-AllGood :
    (s s' : Service) (id : String)
    → ((k : String) → slots s' k ≡ slots (dropped s id) k)
    → RunIsKeyed id (slots s id).execution
    → GoodBut id s
    → AllGood s'
unfolding slots
dropped-AllGood s s' id same run others =
    Sets-AllGood s s' id (record { entry = none; timer = none; execution = (slots s id).execution })
      (λ k.
        ground (arith, same k, get-delete id k s.schedules, get-delete id k s.timers, ==_iff id k))
      (tt, run, tt, tt) others

pub after_run-AllGood :
    (s : Service) (x : Schedule) (failed : Bool) (now : ℕ)
    → RunIsKeyed x.id (slots s x.id).execution
    → GoodBut x.id s
    → AllGood (after_run s x failed now)
unfolding after_run
after_run-AllGood s x failed now run others =
    let failures : ℕ = if failed then suc (failure_count x.consecutive_failures) else 0 in
    elim (Bool-cases (failed && leb max_consecutive_failures failures)) [
      | inl last ↦ rw last (dropped-AllGood s _ x.id (λ k. unfold slots in refl) run others)
      | inr more ↦ rw more (store-arm-AllGood s x.id (next_run x failures now) now refl run others)
    ]

-- `runScheduled` goes on only if the stored object is the one that it ran.
pub settle_scheduled_lem :
    (s : Service) (e : Entry) (failed : Bool) (now : ℕ)
    → ((settle_scheduled s e failed now ≡ s)
        × ((x : Entry) → get e.schedule.id s.schedules ≡ some x → (x.object == e.object) ≡ false))
      ⊎ ((x : Entry) × (get e.schedule.id s.schedules ≡ some x)
          × ((x.object == e.object) ≡ true)
          × (settle_scheduled s e failed now ≡ after_run s x.schedule failed now))
unfolding settle_scheduled
settle_scheduled_lem s e failed now = elim (Option-cases (get e.schedule.id s.schedules)) [
  | inl gone ↦ inl (ground arith, λ x h. ground arith)
  | inr (x, found) ↦ elim (Bool-cases (x.object == e.object)) [
    | inl hit ↦ inr (x, found, hit, ground arith)
    | inr miss ↦ inl (ground arith, λ y h. ground arith)
  ]
]

-- The end of a scheduled run of a stored schedule that stood in order but for its own run.
pub settle_scheduled-AllGood :
    (s : Service) (id : String) (e : Entry) (failed : Bool) (now : ℕ)
    → e.schedule.id ≡ id
    → IsKeyed id (slots s id).entry
    → RunIsKeyed id (slots s id).execution
    → (((x : Entry) → get id s.schedules ≡ some x → (x.object == e.object) ≡ false)
        → IsGood id (slots s id))
    → GoodBut id s
    → AllGood (settle_scheduled s e failed now)
unfolding slots
settle_scheduled-AllGood s id e failed now keyed own run other others =
    elim (settle_scheduled_lem s e failed now) [
      | inl (same, away) ↦ subst AllGood (sym same) (
          AllGood-cases s id
            (other (
              subst (λ j. (x : Entry) → get j s.schedules ≡ some x → (x.object == e.object) ≡ false)
                keyed away))
            others)
      | inr (x, found, hit, ran) ↦
          let found' : get id s.schedules ≡ some x =
            subst (λ j. get j s.schedules ≡ some x) keyed found in
          let mine : x.schedule.id ≡ id = subst (IsKeyed id) found' own in
          subst AllGood (sym ran) (
            after_run-AllGood s x.schedule failed now
              (subst (λ j. RunIsKeyed j (slots s j).execution) (sym mine) run)
              (subst (λ j. GoodBut j s) (sym mine) others))
    ]
