-- ===== src/Schedules/Service/Timers/Slots.antt =====
-- What the service holds of one id, and what the helpers of server-schedules.service.ts do to it.
use agapornis_api.Common.{
  ℕ, String, true, Option, none, some, ◌≡◌, if◌then◌else◌, ◌==◌, string_eq, arith,
}
use agapornis_api.Common.Dict.{get, delete, get-set, get-delete}
use agapornis_api.Schedules.Service.{
  Service, Entry, Timer, Execution, Schedule, clear_timer, arm, store, due_in, save,
}

pub record Slots : Type 0 where
  pub entry : Option Entry
  pub timer : Option Timer
  pub execution : Option Execution

unfoldable pub slots : Service → String → Slots
slots s k = record {
  entry = get k s.schedules;
  timer = get k s.timers;
  execution = get k s.executions;
}

abbrev pub armed : Entry → ℕ → Option Timer
armed e now =
    if e.schedule.enabled
    then some (record { entry = e; due_in = due_in e.schedule now; pending = true })
    else none

pub slots-clear_timer :
    (s : Service) (id k : String)
    → slots (clear_timer s id) k
      ≡ (if id == k then record (slots s k) { timer = none } else slots s k)
unfolding clear_timer slots
slots-clear_timer s id k = ground (arith, get-delete id k s.timers)

pub slots-arm :
    (s : Service) (e : Entry) (now : ℕ) (k : String)
    → slots (arm s e now) k
      ≡ (if e.schedule.id == k then record (slots s k) { timer = armed e now } else slots s k)
unfolding arm clear_timer slots
slots-arm s e now k = ground (
  arith,
  get-delete e.schedule.id k s.timers,
  get-set e.schedule.id k (record { entry = e; due_in = due_in e.schedule now; pending = true })
      (delete e.schedule.id s.timers),
)

pub slots-store :
    (s : Service) (key : String) (x : Schedule) (k : String)
    → slots (store s key x).1 k ≡ (
        if key == k
        then record (slots s k) { entry = some (record { object = s.fresh; schedule = x }) }
        else slots s k)
unfolding store save slots
slots-store s key x k =
    ground (arith, get-set key k (record { object = s.fresh; schedule = x }) s.schedules)
