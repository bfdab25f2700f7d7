-- ===== src/Schedules/Tests.antt =====
-- The schedules at concrete inputs.
use agapornis_api.Common.{
  ◌≤◌, String, true, false, Option, none, some, List, [], ◌∷◌, ◌≡◌, ◌≢◌, refl, ◌⊎◌, string_eq,
  arith, ok, err, All, length,
}
use agapornis_api.Common.Dict.{get, set, delete}
use agapornis_api.Common.Text.{any_char, text_length, split, join}
use agapornis_api.Registry.Types.{ServerRecord, User, Role, schedules}
use agapornis_api.Registry.Access.{can_perform}
use agapornis_api.Registry.Tests.{lobby}
use agapornis_api.Schedules.Config.{
  Action, check_action, check_interval, check_name, action_configuration, check_actor,
  max_schedules_per_server, check_target_path, required_permission, ScheduleError,
}
use agapornis_api.Schedules.Service.{
  Service, Entry, Timer, Schedule, Request, create, fire, settle, list_for_server, new_schedule,
}
use agapornis_api.Schedules.Service.Events.{Event, creates, fires, settles, run}
use agapornis_api.Schedules.Service.Timers.Slots.{slots}
use agapornis_api.Schedules.Service.Timers.Good.{AllGood, IsArmed, IsRunning}
use agapornis_api.Schedules.Service.Timers.Served.{run-timers_current, run-served}
use agapornis_api.Schedules.Service.Quota.{WithinQuota, run-WithinQuota}
use agapornis_api.Schedules.Execution.{Agent, execute, is_frozen, actor_of, clear_directory_of}
use agapornis_api.Schedules.Execution.Permission.{execute_permitted}
use agapornis_api.Schedules.Execution.Clearing.{DeletesIn, clear_directory-confined}

abbrev idle : Service
idle = record {
  schedules = [];
  timers = [];
  executions = [];
  fresh = 0;
  file = none;
  removals = [];
}

idle-AllGood : AllGood idle
unfolding slots get
idle-AllGood k = (tt, tt, tt, tt)

idle-WithinQuota : WithinQuota idle
unfolding list_for_server
idle-WithinQuota server = omega arith

abbrev request : Request
request = record {
  action = some "clear_directory";
  interval_seconds = some 300;
  name = some " nightly ";
  enabled = none;
  command = none;
  target_path = some "/cache\\tmp/";
  storage = none;
  actor_id = some "ann";
}

abbrev nightly : Schedule
nightly = record {
  id = "a";
  server_id = "s1";
  node_id = "n1";
  name = "nightly";
  enabled = true;
  interval_seconds = 300;
  action = Action.clear_directory;
  configuration = record { command = none; target_path = some "cache/tmp"; storage = none };
  actor_user_id = some "ann";
  consecutive_failures = some 0;
  last_run_at = none;
  next_run_at = some 301000;
  created_at = 1000;
}

abbrev failed_once : Entry
failed_once = record {
  object = 1;
  schedule = record nightly {
    consecutive_failures = some 1;
    last_run_at = some 302000;
    next_run_at = some 602000;
  };
}

abbrev armed_again : Timer
armed_again = record { entry = failed_once; due_in = 300000; pending = true }

abbrev night : List Event
night = creates "a" 1000 "s1" "n1" request ∷ fires "a" 301000 ∷ settles "a" true 302000 ∷ []

night_timer : get "a" (run idle night).timers ≡ some armed_again
unfolding run create fire settle new_schedule check_action check_interval check_name
    action_configuration check_target_path check_actor get set delete text_length any_char split
    join
night_timer = refl

night_entry : get "a" (run idle night).schedules ≡ some failed_once
unfolding run create fire settle new_schedule check_action check_interval check_name
    action_configuration check_target_path check_actor get set delete text_length any_char split
    join
night_entry = refl

run-timers_current_example :
    (get "a" (run idle night).schedules ≡ some failed_once) × (failed_once.schedule.enabled ≡ true)
run-timers_current_example =
    run-timers_current idle night "a" armed_again idle-AllGood night_timer refl

run-served_example :
    IsArmed failed_once (get "a" (run idle night).timers)
    ⊎ IsRunning failed_once (get "a" (run idle night).executions)
run-served_example = run-served idle night "a" failed_once idle-AllGood night_entry refl

run-WithinQuota_example : length (list_for_server (run idle night) "s1") ≤ max_schedules_per_server
run-WithinQuota_example = run-WithinQuota idle night idle-AllGood idle-WithinQuota "s1"

abbrev lone : Service
lone = record idle { schedules = ("a", record { object = 0; schedule = nightly }) ∷ []; fresh = 1 }

abbrev agreeing : Agent
agreeing calls call = record {
  throws = false;
  success = some true;
  items = some (some "x.log" ∷ some "y.log" ∷ []);
}

abbrev ann : User
ann = record { id = "ann"; role = Role.user }

find : String → Option User
find id = some ann

ran : (execute agreeing (some lobby) find nightly).1 ≢ []
unfolding execute is_frozen get find can_perform required_permission text_length any_char split join
ran = λ p. cc

execute_permitted_example :
    (r : ServerRecord) × (u : User) × (some lobby ≡ some r)
    × (is_frozen r ≡ false)
    × (actor_of find nightly.actor_user_id ≡ some u)
    × (can_perform (some r) u schedules ≡ true)
    × (can_perform (some r) u (required_permission nightly.action) ≡ true)
execute_permitted_example = execute_permitted agreeing (some lobby) find nightly ran

clear_directory-confined_example :
    let calls = (clear_directory_of agreeing "n1" "s1" (some "cache") []).1 in
    ((e : ScheduleError) × (check_target_path (some "cache") ≡ err e) × (calls ≡ []))
    ⊎ ((dir : String) × (check_target_path (some "cache") ≡ ok dir) × All (DeletesIn dir) calls)
clear_directory-confined_example = clear_directory-confined agreeing "n1" "s1" (some "cache")
