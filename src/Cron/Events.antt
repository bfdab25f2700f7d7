-- ===== src/Cron/Events.antt =====
-- The histories of the cron jobs: calls, timers that go off and runs that end, in any order.
use agapornis_api.Common.{
  ℕ, String, Bool, true, ◌≡◌, none, some, List, [], ◌∷◌, string_eq, nat_eq, Result, ok, err,
}
use agapornis_api.Common.Dict.{get}
use agapornis_api.Cron.{
  CronJob, CronError, CronRequest, Run, Service, Timer, create, remove, run_now, fire, settle,
}

pub data Event : Type 0 where
  creates : String → ℕ → CronRequest → Event
  removes : String → Event
  runs_now fires : String → ℕ → Event
  settles : ℕ → Bool → ℕ → Event

abbrev pub created : Service → Result CronError (CronJob × Service) → Service
created s (ok (job, s')) = s'
created s (err e) = s

abbrev pub begun : Service → Result CronError Service → Service
begun s (ok s') = s'
begun s (err e) = s

unfoldable pub apply : Service → Event → Service
apply s (creates id now body) = created s (create s id now body)
apply s (removes id) = remove s id
apply s (runs_now id n) = begun s (run_now s id n)
apply s (fires id n) = fire s id n
apply s (settles n failed now) = settle s n failed now

unfoldable pub run : Service → List Event → Service
run s [] = s
run s (e ∷ es) = run (apply s e) es

-- Timers hold enabled jobs under their ids, and so do the runs that they started.
pub record IsArmed (s : Service) : Type 0 where
  pub timers_enabled :
      (k : String) (t : Timer) → get k s.timers ≡ some t → (t.job.enabled ≡ true) × (t.job.id ≡ k)
  pub runs_enabled :
      (n : ℕ) (r : Run) → get n s.runs ≡ some r → r.timed ≡ true → r.job.enabled ≡ true

-- A run that starts has a number of its own.
abbrev pub IsFresh : Service → Event → Type 0
IsFresh s (runs_now id n) = get n s.runs ≡ none
IsFresh s (fires id n) = get n s.runs ≡ none
IsFresh s _ = Unit

abbrev pub AllFresh : Service → List Event → Type 0
AllFresh s [] = Unit
AllFresh s (e ∷ es) = IsFresh s e × AllFresh (apply s e) es
