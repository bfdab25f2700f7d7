-- ===== src/Cron.antt =====
-- Cron jobs: src/modules/cronjobs/cronjobs.service.ts over the JSON store, without Redis, so that
-- `withLock` runs its task at once. A job's payload is a list of text fields. A timer's callback is
-- cut where it waits: `fire` is its start and `settle` what follows the run. Times are milliseconds,
-- intervals whole seconds. A run has a number, which the caller of `fire` and `run_now` draws.
pub mod Actions
pub mod Events
pub mod Effects
pub mod Armed
pub mod Live
pub mod Lost
mod Tests
use agapornis_api.Common.{
  ℕ, ◌+◌, ◌-◌, ◌*◌, max, String, Bool, true, false, ◌&&◌, Option, none, some, List, [], ◌∷◌,
  if◌then◌else◌, ◌==◌, string_eq, nat_eq, ltb, get_or, find, is_some, Result, ok, err,
}
use agapornis_api.Common.Dict.{get, set, delete, values}
use agapornis_api.Common.Text.{is_empty}

abbrev pub Payload : Type 0
Payload = List (String × String)

pub record CronJob : Type 0 where
  pub id : String
  pub name : String
  pub enabled : Bool
  pub interval_seconds : ℕ
  pub event_type : String
  pub webhook_target_id : Option String
  pub payload : Payload
  pub last_run_at : Option ℕ
  pub next_run_at : Option ℕ
  pub created_at : ℕ

-- A timer of `timers`, with the job of its callback; it has gone off once it is not pending.
pub record Timer : Type 0 where
  pub job : CronJob
  pub due_in : ℕ
  pub pending : Bool

-- A run of `execute`, and whether a timer's callback waits for it.
pub record Run : Type 0 where
  pub job : CronJob
  pub timed : Bool

pub record Service : Type 0 where
  pub jobs : List (String × CronJob)
  pub timers : List (String × Timer)
  pub runs : List (ℕ × Run)
  pub file : Option (List CronJob)

pub data CronError : Type 0 where
  no_name short_interval not_found no_target no_command call_failed rejected : CronError

abbrev pub save : Service → Service
save s = record s { file = some (values s.jobs) }

-- The fields of a request's body; `intervals` are `intervalSeconds`, `interval_seconds` and
-- `everySeconds`, and each of the others is the first of its two spellings that is not empty.
pub record CronRequest : Type 0 where
  pub name : Option String
  pub intervals : List (Option ℕ)
  pub enabled : Option Bool
  pub event_type : Option String
  pub webhook_target_id : Option String
  pub payload : Payload
  pub action : Option String
  pub node_id : Option String
  pub server_id : Option String

-- `a || b || … || 0`
abbrev pub first_number : List (Option ℕ) → ℕ
first_number [] = 0
first_number (none ∷ xs) = first_number xs
first_number (some n ∷ xs) = let rest = first_number xs in if ltb 0 n then n else rest

abbrev pub with_field : String → Option String → Payload → Payload
with_field key none payload = payload
with_field key (some v) payload = if is_empty v then payload else set key v payload

unfoldable pub job_payload : CronRequest → Payload
job_payload body =
    with_field "serverId" body.server_id
      (with_field "nodeId" body.node_id (with_field "action" body.action body.payload))

unfoldable pub clear_timer : Service → String → Service
clear_timer s id = record s { timers = delete id s.timers }

-- `Math.max(1000, nextRunAt - now)`; a missing time is 0.
abbrev pub delay : CronJob → ℕ → ℕ
delay job now = max 1000 (get_or job.next_run_at 0 - now)

abbrev pub armed : CronJob → ℕ → Timer
armed job now = record { job = job; due_in = delay job now; pending = true }

unfoldable pub schedule : Service → CronJob → ℕ → Service
unfolding clear_timer
schedule s job now =
    let s' = clear_timer s job.id in
    if job.enabled then record s' { timers = set job.id (armed job now) s'.timers } else s'

-- The object literal of `create`: `id` is what `randomUUID` gives.
unfoldable pub new_job : String → ℕ → String → CronRequest → CronJob
unfolding job_payload
new_job id now name body =
    let interval = first_number body.intervals in
    record {
      id = id;
      name = name;
      enabled = get_or body.enabled true;
      interval_seconds = interval;
      event_type = get_or body.event_type "cron.tick";
      webhook_target_id = body.webhook_target_id;
      payload = job_payload body;
      last_run_at = none;
      next_run_at = some (now + interval * 1000);
      created_at = now;
    }

abbrev pub stored : Service → CronJob → Service
stored s job = save (record s { jobs = set job.id job s.jobs })

unfoldable pub create : Service → String → ℕ → CronRequest → Result CronError (CronJob × Service)
unfolding new_job schedule
create s id now body =
    let name = get_or body.name "" in
    let job = new_job id now name body in
    if is_empty name
    then err no_name
    else if ltb (first_number body.intervals) 10
    then err short_interval
    else ok (job, schedule (stored s job) job now)

unfoldable pub remove : Service → String → Service
unfolding clear_timer
remove s id = let s' = clear_timer s id in save (record s' { jobs = delete id s'.jobs })

abbrev pub started : Service → ℕ → CronJob → Bool → Service
started s n job timed = record s { runs = set n (record { job = job; timed = timed }) s.runs }

abbrev pub has_id : String → CronJob → Bool
has_id id job = job.id == id

unfoldable pub run_now : Service → String → ℕ → Result CronError Service
run_now s id n = elim (find (has_id id) (values s.jobs)) [
  | none ↦ err not_found
  | some job ↦ ok (started s n job false)
]

-- The start of the callback of the timer of `id`.
unfoldable pub fire : Service → String → ℕ → Service
fire s id n = elim (get id s.timers) [
  | none ↦ s
  | some t ↦
      let s' = record s { timers = set id (record t { pending = false }) s.timers } in
      if t.pending then started s' n t.job true else s
]

-- The job after a run at `now`.
abbrev pub next_run : CronJob → ℕ → CronJob
next_run job now = record job {
  last_run_at = some now;
  next_run_at = some (now + job.interval_seconds * 1000);
}

-- `persistRun`
unfoldable pub persist_run : Service → CronJob → Service
persist_run s job = stored s job

-- A run ends. `execute` persists the run if nothing was thrown; the timer's callback does so again
-- and sets the next timer. What is thrown ends the callback.
unfoldable pub settle : Service → ℕ → Bool → ℕ → Service
unfolding persist_run schedule
settle s n failed now = elim (get n s.runs) [
  | none ↦ s
  | some r ↦
      let s' = record s { runs = delete n s.runs } in
      let next = next_run r.job now in
      let done = persist_run s' next in
      if failed then s' else if r.timed then schedule (persist_run done next) next now else done
]

-- `rescheduleAll`, at the start of the program.
unfoldable pub reschedule_all : Service → List CronJob → ℕ → Service
unfolding schedule
reschedule_all s [] now = s
reschedule_all s (job ∷ jobs) now = reschedule_all (schedule s job now) jobs now
