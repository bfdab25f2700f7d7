-- ===== src/Schedules/Service/Failures.antt =====
-- Runs of one schedule that fail in a row.
use agapornis_api.Common.{
  ℕ, suc, String, true, none, some, List, [], ◌∷◌, ◌≡◌, ◌∙◌, refl, sym, subst, ap, inl, inr,
  ==_refl, Bool-cases, string_eq, nat_eq, arith, leb, if◌then◌else◌,
}
use agapornis_api.Common.Dict.{get, get-set, get-delete}
use agapornis_api.Schedules.Config.{failure_count}
use agapornis_api.Schedules.Service.{
  Service, Entry, Schedule, arm, clear_timer, store, save, after_run, next_run, settle_scheduled,
}
use agapornis_api.Schedules.Service.Calls.{stored_arm_sets}

-- The stored schedule fails at each of these times.
pub failing_runs : Service → String → List ℕ → Service
failing_runs s id [] = s
failing_runs s id (now ∷ times) =
    let rest = λ (e : Entry). failing_runs (settle_scheduled s e true now) id times in
    elim (get id s.schedules) [ none ↦ s | some e ↦ rest e ]

abbrev failures_after : Schedule → ℕ
failures_after x = suc (failure_count x.consecutive_failures)

abbrev rescheduled : Service → Schedule → ℕ → Entry
rescheduled s x now = record { object = s.fresh; schedule = next_run x (failures_after x) now }

arm_removals : (s : Service) (e : Entry) (now : ℕ) → (arm s e now).removals ≡ s.removals
unfolding arm clear_timer
arm_removals s e now = ground arith

store_removals : (s : Service) (id : String) (x : Schedule) → (store s id x).1.removals ≡ s.removals
unfolding store save
store_removals s id x = refl

after_failed_run :
    (s : Service) (x : Schedule) (now : ℕ)
    → let s' = after_run s x true now in
      (get x.id s'.schedules
        ≡ (if leb 3 (failures_after x) then none else some (rescheduled s x now)))
      × (s'.removals ≡ (if leb 3 (failures_after x) then x.id ∷ s.removals else s.removals))
unfolding after_run
after_failed_run s x now = elim (Bool-cases (leb 3 (failures_after x))) [
  | inl last ↦ rw last (ground (arith, get-delete x.id x.id s.schedules, ==_refl x.id), refl)
  | inr more ↦ rw more (
    ap (get x.id)
          (stored_arm_sets s x.id (next_run x (failures_after x) now) (rescheduled s x now) now)
        ∙ ground (arith, get-set x.id x.id (rescheduled s x now) s.schedules, ==_refl x.id),
    arm_removals (store s x.id (next_run x (failures_after x) now)).1 _ now
        ∙ store_removals s x.id (next_run x (failures_after x) now),
  )
]

settled :
    (s : Service) (id : String) (e : Entry) (now : ℕ)
    → get id s.schedules ≡ some e
    → e.schedule.id ≡ id
    → settle_scheduled s e true now ≡ after_run s e.schedule true now
unfolding settle_scheduled
settled s id e now found keyed =
    let there : get e.schedule.id s.schedules ≡ some e =
      subst (λ j. get j s.schedules ≡ some e) (sym keyed) found in
    ground (arith, ==_refl e.object)

-- What the stored schedule is after the first of the failing runs.
fails_once :
    (s : Service) (id : String) (e : Entry) (now : ℕ) (times : List ℕ)
    → get id s.schedules ≡ some e
    → e.schedule.id ≡ id
    → let s' = after_run s e.schedule true now in
      (failing_runs s id (now ∷ times) ≡ failing_runs s' id times)
      × (get id s'.schedules ≡ (
          if leb 3 (failures_after e.schedule) then none else some (rescheduled s e.schedule now)))
      × (s'.removals ≡ (if leb 3 (failures_after e.schedule) then id ∷ s.removals else s.removals))
unfolding failing_runs
fails_once s id e now times found keyed =
    let s' = after_run s e.schedule true now in
    let (left, gone) = after_failed_run s e.schedule now in
    (
      rw (found, failing_runs) (ap (λ t. failing_runs t id times) (settled s id e now found keyed)),
      subst
          (λ j. get j s'.schedules ≡ (
            if leb 3 (failures_after e.schedule)
            then none
            else some (rescheduled s e.schedule now)))
          keyed left,
      subst
          (λ j.
            s'.removals
            ≡ (if leb 3 (failures_after e.schedule) then j ∷ s.removals else s.removals))
          keyed gone,
    )

-- A schedule without failures that fails at three times in a row is stored after the first two,
-- switched on or off as before, and gone after the third; only then is its removal reported.
pub three_failures :
    (s : Service) (id : String) (e : Entry) (t₁ t₂ t₃ : ℕ)
    → get id s.schedules ≡ some e
    → e.schedule.id ≡ id
    → failure_count e.schedule.consecutive_failures ≡ 0
    → let twice = failing_runs s id (t₁ ∷ t₂ ∷ []) in
      let thrice = failing_runs s id (t₁ ∷ t₂ ∷ t₃ ∷ []) in
      ((e' : Entry) × (get id twice.schedules ≡ some e')
        × (e'.schedule.enabled ≡ e.schedule.enabled)
        × (e'.schedule.consecutive_failures ≡ some 2))
      × (twice.removals ≡ s.removals)
      × (get id thrice.schedules ≡ none)
      × (thrice.removals ≡ id ∷ s.removals)
unfolding failing_runs failure_count
three_failures s id e t₁ t₂ t₃ found keyed clean =
    let s₁ = after_run s e.schedule true t₁ in
    let e₁ = rescheduled s e.schedule t₁ in
    let (ran₁, left₁, gone₁) = fails_once s id e t₁ (t₂ ∷ []) found keyed in
    let (ran₁', _, _) = fails_once s id e t₁ (t₂ ∷ t₃ ∷ []) found keyed in
    let there₁ : get id s₁.schedules ≡ some e₁ = ground (arith, left₁, clean) in
    let s₂ = after_run s₁ e₁.schedule true t₂ in
    let e₂ = rescheduled s₁ e₁.schedule t₂ in
    let (ran₂, left₂, gone₂) = fails_once s₁ id e₁ t₂ [] there₁ keyed in
    let (ran₂', _, _) = fails_once s₁ id e₁ t₂ (t₃ ∷ []) there₁ keyed in
    let there₂ : get id s₂.schedules ≡ some e₂ = ground (arith, left₂, clean) in
    let (ran₃, left₃, gone₃) = fails_once s₂ id e₂ t₃ [] there₂ keyed in
    rw (ran₁ ∙ ran₂, ran₁' ∙ ran₂' ∙ ran₃)
      (
        (e₂, there₂, refl, ground (arith, clean)),
        ground (arith, gone₁, gone₂, clean),
        ground (arith, left₃, clean),
        ground (arith, gone₁, gone₂, gone₃, clean),
      )
