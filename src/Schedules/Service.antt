-- ===== src/Schedules/Service.antt =====
-- The schedules, their timers and their running executions: `create`, `update`, `remove`, `runNow`,
-- `schedule`, `runScheduled`, `executeExclusive`, `nextRun` and `clearTimer` of
-- server-schedules.service.ts. A schedule object has an identity, `object`, since `runScheduled`
-- compares objects; each object literal of the source takes the next number. Times are milliseconds.
pub mod Events
pub mod Calls
pub mod Timers
pub mod Quota
pub mod Failures
use agapornis_api.Common.{
  ℕ, suc, ◌+◌, ◌-◌, ◌*◌, max, String, Bool, true, false, not, ◌&&◌, ◌||◌, Option, none, some, List,
  [], ◌∷◌, if◌then◌else◌, ◌==◌, string_eq, nat_eq, leb, ltb, filter, length, get_or, or_else,
  is_some, Result, ok, err, ◌>>=◌,
}
use agapornis_api.Common.Dict.{get, set, delete, has, values}
use agapornis_api.Schedules.Config.{
  Action, Storage, ScheduleError, too_many, not_found, already_running, Configuration, check_action,
  check_interval, check_name, action_configuration, check_actor, failure_count,
  max_schedules_per_server, max_consecutive_failures,
}

pub record Schedule : Type 0 where
  pub id : String
  pub server_id : String
  pub node_id : String
  pub name : String
  pub enabled : Bool
  pub interval_seconds : ℕ
  pub action : Action
  pub configuration : Configuration
  pub actor_user_id : Option String
  pub consecutive_failures : Option ℕ
  pub last_run_at : Option ℕ
  pub next_run_at : Option ℕ
  pub created_at : ℕ

pub record Entry : Type 0 where
  pub object : ℕ
  pub schedule : Schedule

-- A timer of `timers` holds the object of its callback; it has fired once it is not pending.
pub record Timer : Type 0 where
  pub entry : Entry
  pub due_in : ℕ
  pub pending : Bool

-- A running `execute`, and whether `runScheduled` waits for it.
pub record Execution : Type 0 where
  pub entry : Entry
  pub scheduled : Bool

-- `file` is what `save` last wrote; `removals` the schedules of `server.schedule_removed_after_failures`.
pub record Service : Type 0 where
  pub schedules : List (String × Entry)
  pub timers : List (String × Timer)
  pub executions : List (String × Execution)
  pub fresh : ℕ
  pub file : Option (List Entry)
  pub removals : List String

abbrev pub max_timer_ms : ℕ
max_timer_ms = 2147000000

-- The fields of a request's body, as the service reads them.
pub record Request : Type 0 where
  pub action : Option String
  pub interval_seconds : Option ℕ
  pub name : Option String
  pub enabled : Option Bool
  pub command : Option String
  pub target_path : Option String
  pub storage : Option String
  pub actor_id : Option String

abbrev pub of_server : String → Entry → Bool
of_server server_id e = e.schedule.server_id == server_id

unfoldable pub list_for_server : Service → String → List Entry
list_for_server s server_id = filter (of_server server_id) (values s.schedules)

unfoldable pub get_for_server : Service → String → String → Result ScheduleError Entry
get_for_server s id server_id = elim (get id s.schedules) [
  | none ↦ err not_found
  | some e ↦ if of_server server_id e then ok e else err not_found
]

unfoldable pub clear_timer : Service → String → Service
clear_timer s id = record s { timers = delete id s.timers }

-- `Math.max(1000, nextRunAt - now)`; a missing time is 0.
abbrev pub due_in : Schedule → ℕ → ℕ
due_in x now = max 1000 (get_or x.next_run_at 0 - now)

unfoldable pub arm : Service → Entry → ℕ → Service
unfolding clear_timer
arm s e now =
    let s' = clear_timer s e.schedule.id in
    let t : Timer = record { entry = e; due_in = due_in e.schedule now; pending = true } in
    if e.schedule.enabled then record s' { timers = set e.schedule.id t s'.timers } else s'

unfoldable pub save : Service → Service
save s = record s { file = some (values s.schedules) }

-- A new object for `x`, stored under `key` and saved.
unfoldable pub store : Service → String → Schedule → Entry × Service
unfolding save
store s key x =
    let e : Entry = record { object = s.fresh; schedule = x } in
    (e, save (record s { schedules = set key e s.schedules; fresh = suc s.fresh }))

-- The object literal of `create`: `id` is what `randomUUID` gives, `now` what the clock says.
unfoldable pub new_schedule : String → ℕ → String → String → Request → Result ScheduleError Schedule
new_schedule id now server_id node_id body = do
  action ← check_action body.action
  interval ← check_interval body.interval_seconds action
  name ← check_name body.name
  configuration ← action_configuration action body.command body.target_path body.storage
  actor ← check_actor body.actor_id
  ok (record {
    id = id;
    server_id = server_id;
    node_id = node_id;
    name = name;
    enabled = get_or body.enabled true;
    interval_seconds = interval;
    action = action;
    configuration = configuration;
    actor_user_id = some actor;
    consecutive_failures = some 0;
    last_run_at = none;
    next_run_at = some (now + interval * 1000);
    created_at = now;
  })

-- `schedules.set(key, x); save(); schedule(x)`
abbrev stored_and_armed : Service → String → ℕ → Schedule → Entry × Service
stored_and_armed s key now x = let stored = store s key x in (stored.0, arm stored.1 stored.0 now)

unfoldable pub create :
    Service → String → ℕ → String → String → Request → Result ScheduleError (Entry × Service)
unfolding list_for_server store arm new_schedule
create s id now server_id node_id body =
    if leb max_schedules_per_server (length (list_for_server s server_id))
    then err too_many
    else do x ← new_schedule id now server_id node_id body; ok (stored_and_armed s id now x)

-- `body.f !== undefined ? check(body.f) : existing`
abbrev checked_or {ℓ} :
    {A : Type ℓ}
    → (Option String → Result ScheduleError A)
    → Option String
    → A
    → Result ScheduleError A
checked_or check none old = ok old
checked_or check (some v) old = check (some v)

abbrev storage_name : Option Storage → Option String
storage_name none = none
storage_name (some Storage.local) = some "local"
storage_name (some Storage.s3) = some "s3"

-- The object literal of `update`, over the schedule that is there.
unfoldable pub updated_schedule : Schedule → ℕ → Request → Result ScheduleError Schedule
updated_schedule old now body = do
  action ← checked_or check_action body.action old.action
  interval ← check_interval (or_else body.interval_seconds (some old.interval_seconds)) action
  name ← checked_or check_name body.name old.name
  configuration ←
      action_configuration action (or_else body.command old.configuration.command)
        (or_else body.target_path old.configuration.target_path)
        (or_else body.storage (storage_name old.configuration.storage))
  actor ← check_actor body.actor_id
  ok (record old {
    name = name;
    enabled = get_or body.enabled old.enabled;
    interval_seconds = interval;
    action = action;
    configuration = configuration;
    actor_user_id = some actor;
    consecutive_failures = some 0;
    next_run_at =
        if is_some body.interval_seconds then some (now + interval * 1000) else old.next_run_at;
  })

unfoldable pub update :
    Service → String → ℕ → String → Request → Result ScheduleError (Entry × Service)
unfolding get_for_server store arm clear_timer updated_schedule
update s id now server_id body = do
  existing ← get_for_server s id server_id
  x ← updated_schedule existing.schedule now body
  let stored = store s id x
  ok (stored.0, arm (clear_timer stored.1 id) stored.0 now)

unfoldable pub remove : Service → String → String → Result ScheduleError Service
unfolding get_for_server clear_timer save
remove s id server_id = do
  e ← get_for_server s id server_id
  let s' = clear_timer s id
  ok (save (record s' { schedules = delete id s'.schedules }))

unfoldable pub execute_exclusive : Service → Entry → Bool → Result ScheduleError Service
execute_exclusive s e scheduled =
    if has e.schedule.id s.executions
    then err already_running
    else ok (record s {
      executions = set e.schedule.id (record { entry = e; scheduled = scheduled }) s.executions;
    })

unfoldable pub run_now : Service → String → String → Result ScheduleError Service
unfolding get_for_server execute_exclusive
run_now s id server_id = do e ← get_for_server s id server_id; execute_exclusive s e false

abbrev pub next_run : Schedule → ℕ → ℕ → Schedule
next_run x failures now = record x {
  consecutive_failures = some failures;
  last_run_at = some now;
  next_run_at = some (now + x.interval_seconds * 1000);
}

-- What `runScheduled` does with `current`, once the run has ended.
unfoldable pub after_run : Service → Schedule → Bool → ℕ → Service
unfolding store arm clear_timer save failure_count
after_run s current failed now =
    let failures = if failed then suc (failure_count current.consecutive_failures) else 0 in
    let s' = clear_timer s current.id in
    let stored = store s current.id (next_run current failures now) in
    if failed && leb max_consecutive_failures failures
    then save (record s' {
      schedules = delete current.id s'.schedules;
      removals = current.id ∷ s'.removals;
    })
    else arm stored.1 stored.0 now

-- `runScheduled` from where `executeExclusive` has returned or thrown.
unfoldable pub settle_scheduled : Service → Entry → Bool → ℕ → Service
unfolding after_run
settle_scheduled s e failed now = elim (get e.schedule.id s.schedules) [
  | none ↦ s
  | some current ↦ if current.object == e.object then after_run s current.schedule failed now else s
]

-- The start of `runScheduled`: a refusal of `executeExclusive` counts as a failed run.
unfoldable pub run_scheduled : Service → Entry → ℕ → Service
unfolding execute_exclusive settle_scheduled
run_scheduled s e now = elim (execute_exclusive s e true) [
  | ok s' ↦ s'
  | err _ ↦ settle_scheduled s e true now
]

-- The callback of the timer of `id`: a time beyond what a timer can hold is waited for in parts.
unfoldable pub fire : Service → String → ℕ → Service
unfolding arm run_scheduled
fire s id now = elim (get id s.timers) [
  | none ↦ s
  | some t ↦
      let s' = record s { timers = set id (record t { pending = false }) s.timers } in
      let armed = arm s' t.entry now in
      let started = run_scheduled s' t.entry now in
      if t.pending then (if ltb max_timer_ms t.due_in then armed else started) else s
]

-- The execution of `id` ends: `finally` forgets it, and `runScheduled` goes on if it waits.
unfoldable pub settle : Service → String → Bool → ℕ → Service
unfolding settle_scheduled
settle s id failed now = elim (get id s.executions) [
  | none ↦ s
  | some x ↦
      let s' = record s { executions = delete id s.executions } in
      let resumed = settle_scheduled s' x.entry failed now in if x.scheduled then resumed else s'
]
