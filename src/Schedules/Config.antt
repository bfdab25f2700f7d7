-- ===== src/Schedules/Config.antt =====
-- The settings of a schedule and how a request's are checked: `action`, `interval`, `name`,
-- `actionConfiguration`, `targetPath`, `storage`, `actorId`, `failureCount` and
-- `requiredPermission` of server-schedules.service.ts. A request's field that is missing is `none`;
-- its interval is a whole number, or missing.
pub mod Checks
use Prim.Native.Char.{Char, code}
use agapornis_api.Common.{
  ℕ, ◌-◌, min, String, Bool, true, false, ◌||◌, Option, none, some, List, [], ◌∷◌, if◌then◌else◌,
  ◌==◌, string_eq, nat_beq, ltb, leb, any, get_or, or_else, Result, ok, err, ◌>>=◌, unless,
}
use agapornis_api.Common.Text.{
  text_or, trim, text_length, is_empty, any_char, replace_char, strip, split, join, to_lower,
  is_char,
}
use agapornis_api.Registry.Types.{Scope, power, console_send, backups, files_write}

pub data Action : Type 0 where
  restart start stop command backup_create backup_delete clear_directory : Action

pub data Storage : Type 0 where
  local s3 : Storage

pub data ScheduleError : Type 0 where
  too_many bad_action bad_interval bad_name bad_command bad_target unsafe_segment : ScheduleError
  bad_storage no_owner not_found already_running server_missing server_frozen : ScheduleError
  no_permission rejected bad_listing too_many_items unsafe_entry call_failed : ScheduleError

abbrev pub max_interval_seconds : ℕ
max_interval_seconds = 2147000

abbrev pub max_schedules_per_server : ℕ
max_schedules_per_server = 50

abbrev pub max_clear_items : ℕ
max_clear_items = 1000

abbrev pub max_consecutive_failures : ℕ
max_consecutive_failures = 3

action_names : List (String × Action)
action_names =
    ("restart", restart)
    ∷ ("start", start)
    ∷ ("stop", stop)
    ∷ ("command", command)
    ∷ ("backup_create", backup_create)
    ∷ ("backup_delete", backup_delete)
    ∷ ("clear_directory", clear_directory)
    ∷ []

find_action : String → List (String × Action) → Option Action
find_action value [] = none
find_action value ((name, a) ∷ rest) =
    let later = find_action value rest in if value == name then some a else later

abbrev found_action : Option Action → Result ScheduleError Action
found_action none = err bad_action
found_action (some a) = ok a

unfoldable pub check_action : Option String → Result ScheduleError Action
unfolding action_names find_action
check_action value = found_action (find_action (text_or value "restart") action_names)

abbrev pub is_destructive : Action → Bool
is_destructive backup_create = true
is_destructive backup_delete = true
is_destructive clear_directory = true
is_destructive _ = false

abbrev pub min_interval : Action → ℕ
min_interval a = if is_destructive a then 300 else 60

-- A missing interval is `NaN`.
unfoldable pub check_interval : Option ℕ → Action → Result ScheduleError ℕ
check_interval none a = err bad_interval
check_interval (some n) a =
    unless (ltb n (min_interval a) || ltb max_interval_seconds n) bad_interval n

-- Characters 0 to 31 and 127.
abbrev pub is_control : Char → Bool
is_control c = leb (code c) 31 || nat_beq (code c) 127

unfoldable pub check_name : Option String → Result ScheduleError String
unfolding trim
check_name value =
    let name = trim (text_or value "") in
    unless (is_empty name || ltb 160 (text_length name) || any_char is_control name) bad_name name

abbrev pub breaks_line : Char → Bool
breaks_line c = is_char 13 c || is_char 10 c || is_char 0 c

unfoldable pub check_command : Option String → Result ScheduleError String
unfolding trim
check_command value =
    let line = trim (text_or value "") in
    unless (is_empty line || ltb 2048 (text_length line) || any_char breaks_line line) bad_command
      line

abbrev pub slash : Char
slash = Prim.Native.Char.char b'/' tt

abbrev pub backslash : Char
backslash = Prim.Native.Char.char b'\\' tt

abbrev pub is_unsafe_segment : String → Bool
is_unsafe_segment s = is_empty s || s == "." || s == ".."

unfoldable pub check_target_path : Option String → Result ScheduleError String
unfolding trim strip replace_char
check_target_path value =
    let raw = strip (is_char b'/') (replace_char backslash slash (trim (text_or value ""))) in
    let segments = split slash raw in
    if is_empty raw || ltb 1024 (text_length raw) || any_char is_control raw
    then err bad_target
    else unless (any is_unsafe_segment segments) unsafe_segment (join "/" segments)

unfoldable pub check_storage : Option String → Result ScheduleError Storage
unfolding to_lower
check_storage value =
    let storage = to_lower (text_or value "local") in
    if storage == "local" then ok local else if storage == "s3" then ok s3 else err bad_storage

-- What `actionConfiguration` returns: the fields that the action uses.
pub record Configuration : Type 0 where
  pub command : Option String
  pub target_path : Option String
  pub storage : Option Storage

abbrev with_command : String → Configuration
with_command c = record { command = some c; target_path = none; storage = none }

abbrev with_target : String → Configuration
with_target p = record { command = none; target_path = some p; storage = none }

abbrev with_storage : Storage → Configuration
with_storage s = record { command = none; target_path = none; storage = some s }

unfoldable pub action_configuration :
    Action → Option String → Option String → Option String → Result ScheduleError Configuration
action_configuration Action.command line path storage = do
  c ← check_command line
  ok (with_command c)
action_configuration clear_directory line path storage = do
  p ← check_target_path path
  ok (with_target p)
action_configuration backup_create line path storage = do
  s ← check_storage storage
  ok (with_storage s)
action_configuration backup_delete line path storage = do
  s ← check_storage storage
  ok (with_storage s)
action_configuration _ line path storage =
    ok (record { command = none; target_path = none; storage = none })

unfoldable pub check_actor : Option String → Result ScheduleError String
unfolding trim
check_actor id = let name = trim (text_or id "") in unless (is_empty name) no_owner name

unfoldable pub failure_count : Option ℕ → ℕ
failure_count none = 0
failure_count (some n) = min n (max_consecutive_failures - 1)

unfoldable pub required_permission : Action → Scope
required_permission Action.command = console_send
required_permission backup_create = backups
required_permission backup_delete = backups
required_permission clear_directory = files_write
required_permission _ = power
