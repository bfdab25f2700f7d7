-- ===== src/Schedules/Service/Timers/Served.antt =====
-- No order of calls, timers and ends of runs lets go of a schedule, or starts one that is gone.
use agapornis_api.Common.{
  ℕ, String, true, false, Option, some, List, [], ◌∷◌, ◌≡◌, ◌∙◌, refl, sym, subst, ◌⊎◌, inl, inr,
  ==_iff, string_eq, arith, Result, ok, err,
}
use agapornis_api.Common.Dict.{get}
use agapornis_api.Schedules.Service.{
  Service, Entry, Timer, Request, clear_timer, arm, store, create, update, remove, run_now, save,
}
use agapornis_api.Schedules.Service.Calls.{
  new_schedule_lem, updated_schedule_lem, create_lem, update_lem, remove_lem, run_now_lem,
}
use agapornis_api.Schedules.Service.Events.{
  Event, creates, updates, removes, runs_now, fires, settles, step, run, left_by, changed_by,
}
use agapornis_api.Schedules.Service.Timers.Slots.{slots, slots-clear_timer, slots-arm}
use agapornis_api.Schedules.Service.Timers.Good.{
  AllGood, IsGood, IsKeyed, IsTimed, IsServed, IsArmed, IsRunning,
}
use agapornis_api.Schedules.Service.Timers.Ops.{store-arm-AllGood, dropped-AllGood}
use agapornis_api.Schedules.Service.Timers.Runs.{
  fire-AllGood, settle-AllGood, run_now-AllGood, started, execute_exclusive_lem,
}

arm-clear_timer :
    (s : Service) (id : String) (e : Entry) (now : ℕ) (k : String)
    → e.schedule.id ≡ id
    → slots (arm (clear_timer s id) e now) k ≡ slots (arm s e now) k
arm-clear_timer s id e now k keyed = ground (
  arith,
  slots-arm (clear_timer s id) e now k,
  slots-arm s e now k,
  slots-clear_timer s id k,
  ==_iff id k,
  ==_iff e.schedule.id k,
)

pub stored_keyed :
    (s : Service) (id : String) (e : Entry)
    → AllGood s
    → get id s.schedules ≡ some e
    → e.schedule.id ≡ id
unfolding slots
stored_keyed s id e good there = subst (IsKeyed id) there (good id).0

create-AllGood :
    (s : Service) (r : Result _ (Entry × Service)) (id : String) (now : ℕ)
    (server_id node_id : String) (body : Request)
    → r ≡ create s id now server_id node_id body
    → AllGood s
    → AllGood (left_by s r)
create-AllGood s (ok (e, s')) id now server_id node_id body h good =
    let (x, made, room, same) = create_lem s s' id now server_id node_id body e (sym h) in
    let own = new_schedule_lem id now server_id node_id body x made in
    subst AllGood (sym same) (store-arm-AllGood s id x now own.0 (good id).1 (λ k d. good k))
create-AllGood s (err e) id now server_id node_id body h good = good

update-AllGood :
    (s : Service) (r : Result _ (Entry × Service)) (id : String) (now : ℕ) (server_id : String)
    (body : Request)
    → r ≡ update s id now server_id body
    → AllGood s
    → AllGood (left_by s r)
update-AllGood s (ok (e, s')) id now server_id body h good =
    let (old, x, there, made, same) = update_lem s s' id now server_id body e (sym h) in
    let kept = updated_schedule_lem old.schedule now body x made in
    let keyed : x.id ≡ id = kept.0 ∙ stored_keyed s id _ good there in
    let done = store-arm-AllGood s id x now keyed (good id).1 (λ k d. good k) in
    subst AllGood (sym same)
      (λ k. subst (IsGood k) (sym (arm-clear_timer (store s id x).1 id _ now k keyed)) (done k))
update-AllGood s (err e) id now server_id body h good = good

remove-AllGood :
    (s : Service) (r : Result _ Service) (id server_id : String)
    → r ≡ remove s id server_id
    → AllGood s
    → AllGood (changed_by s r)
remove-AllGood s (ok s') id server_id h good =
    let same = remove_lem s s' id server_id (sym h) in
    dropped-AllGood s s' id (λ k. rw same (unfold slots save in refl)) (good id).1 (λ k d. good k)
remove-AllGood s (err e) id server_id h good = good

run_now-step-AllGood :
    (s : Service) (r : Result _ Service) (id server_id : String)
    → r ≡ run_now s id server_id
    → AllGood s
    → AllGood (changed_by s r)
unfolding slots
run_now-step-AllGood s (ok s') id server_id h good =
    let (e, there, ran) = run_now_lem s s' id server_id (sym h) in
    let keyed : e.schedule.id ≡ id = stored_keyed s id _ good there in
    elim (execute_exclusive_lem s e false) [
      | inl (free, e') ↦
          let same : started s e false ≡ s' = ground arith in
          subst AllGood same (
            run_now-AllGood s e false (subst (λ j. get j s.schedules ≡ some e) (sym keyed) there)
              good free)
      | inr (x, busy, e') ↦ absurd (ground arith)
    ]
run_now-step-AllGood s (err e) id server_id h good = good

pub step-AllGood : (s : Service) (ev : Event) → AllGood s → AllGood (step s ev)
step-AllGood s (creates id now server_id node_id body) good =
    create-AllGood s _ id now server_id node_id body refl good
step-AllGood s (updates id now server_id body) good =
    update-AllGood s _ id now server_id body refl good
step-AllGood s (removes id server_id) good = remove-AllGood s _ id server_id refl good
step-AllGood s (runs_now id server_id) good = run_now-step-AllGood s _ id server_id refl good
step-AllGood s (fires id now) good = fire-AllGood s id now good
step-AllGood s (settles id failed now) good = settle-AllGood s id failed now good

pub run-AllGood : (s : Service) (es : List Event) → AllGood s → AllGood (run s es)
unfolding run
run-AllGood s [] good = good
run-AllGood s (ev ∷ es) good = run-AllGood (step s ev) es (step-AllGood s ev good)

timed_of :
    (e : Option Entry) (o : Option Timer) (t : Timer)
    → IsTimed e o
    → o ≡ some t
    → t.pending ≡ true
    → (e ≡ some t.entry) × (t.entry.schedule.enabled ≡ true)
timed_of e o t h same pending = (subst (IsTimed e) same h) pending

-- Whatever calls come, timers go off and runs end, in whatever order: a timer of an id that may
-- still go off holds the schedule object that is stored under the id, and that is enabled. So
-- no timer runs a schedule that was removed, replaced or switched off.
pub run-timers_current :
    (s : Service) (es : List Event) (id : String) (t : Timer)
    → AllGood s
    → get id (run s es).timers ≡ some t
    → t.pending ≡ true
    → (get id (run s es).schedules ≡ some t.entry) × (t.entry.schedule.enabled ≡ true)
unfolding slots
run-timers_current s es id t good found pending =
    timed_of (get id (run s es).schedules) (get id (run s es).timers) t (run-AllGood s es good id).2
      found pending

-- An enabled schedule that is stored is never forgotten, whatever happens in whatever order: it
-- has a timer that may still go off and holds this object, or a scheduled run of this object is
-- under way.
pub run-served :
    (s : Service) (es : List Event) (id : String) (e : Entry)
    → AllGood s
    → get id (run s es).schedules ≡ some e
    → e.schedule.enabled ≡ true
    → IsArmed e (get id (run s es).timers) ⊎ IsRunning e (get id (run s es).executions)
unfolding slots
run-served s es id e good found enabled =
    let h =
      subst (λ o. IsServed o (get id (run s es).timers) (get id (run s es).executions)) found
        (run-AllGood s es good id).3 in
    h enabled
