-- ===== src/Schedules/Execution.antt =====
-- One run of a schedule: `execute` and `clearDirectory` of server-schedules.service.ts, and
-- `isFrozen` of server-registry.service.ts. What the agent, the databases and the backups answer to a
-- call is a parameter, which may depend on the calls before.
pub mod Permission
pub mod Clearing
use Prim.Native.Char.{Char}
use agapornis_api.Common.{
  ℕ, String, Bool, true, false, not, ◌&&◌, ◌||◌, Option, none, some, List, [], ◌∷◌, if◌then◌else◌,
  ◌==◌, string_eq, ltb, any, length, map, get_or, is_some, Result, ok, err,
}
use agapornis_api.Common.Text.{text_or, is_empty, any_char, is_char, join}
use agapornis_api.Common.Dict.{get}
use agapornis_api.Registry.Types.{ServerRecord, User, Scope, schedules}
use agapornis_api.Registry.Access.{can_perform}
use agapornis_api.Schedules.Config.{
  Action, restart, start, stop, command, backup_create, backup_delete, clear_directory, Storage,
  ScheduleError, server_missing, server_frozen, no_permission, rejected, bad_listing,
  too_many_items, unsafe_entry, call_failed, required_permission, check_target_path,
  max_clear_items, is_unsafe_segment,
}
use agapornis_api.Schedules.Service.{Schedule}

-- The calls of `client`, `databases` and `backups`, with the node and the server.
pub data Call : Type 0 where
  restarts_databases starts_databases stops_databases : String → Call
  restarts_server starts_server stops_server : String → String → Call
  sends_command : String → String → Option String → Call
  creates_backup deletes_oldest_backup : String → Option Storage → Call
  lists_directory deletes_item : String → String → String → Call

-- `success` is the answer's flag, if it has one, `items` the names of the listed items.
pub record Reply : Type 0 where
  pub throws : Bool
  pub success : Option Bool
  pub items : Option (List (Option String))

abbrev pub Agent : Type 0
Agent = List Call → Call → Reply

-- What a part of a run returns, and the calls made so far, the last one first.
abbrev pub Trace : Type 0 → Type 0
Trace A = Result ScheduleError A × List Call

abbrev pub perform : Agent → Call → List Call → Trace Reply
perform agent call calls =
    let reply = agent calls call in
    (if reply.throws then err call_failed else ok reply, call ∷ calls)

infixl 5 ◌>>=◌
abbrev pub ◌>>=◌ : {A B : Type 0} → Trace A → (A → List Call → Trace B) → Trace B
(ok a, calls) >>= k = k a calls
(err e, calls) >>= k = (err e, calls)

abbrev pub is_rejected : Option Bool → Bool
is_rejected none = false
is_rejected (some b) = not b

abbrev bad_in_name : Char → Bool
bad_in_name c = is_char 92 c || is_char 47 c || is_char 0 c

unfoldable pub is_unsafe_name : String → Bool
unfolding any_char
is_unsafe_name name = is_unsafe_segment name || any_char bad_in_name name

-- Why a deletion failed: the call threw, or was answered by `success: false`.
unfoldable pub deletion_failure : Reply → Option ScheduleError
deletion_failure r =
    if r.throws then some call_failed else if is_rejected r.success then some rejected else none

unfoldable pub delete_items :
    Agent → String → String → String → List String → List Call → Trace (Unit {0})
unfolding deletion_failure
delete_items agent node server dir [] calls = (ok tt, calls)
delete_items agent node server dir (name ∷ names) calls =
    let call = deletes_item node server (join "/" (dir ∷ name ∷ [])) in
    let rest = delete_items agent node server dir names (call ∷ calls) in
    elim (deletion_failure (agent calls call)) [ some e ↦ (err e, call ∷ calls) | none ↦ rest ]

-- What `clearDirectory` does with the listing.
unfoldable pub clear_listed :
    Agent → String → String → String → Reply → List Call → Trace (Unit {0})
unfolding is_unsafe_name delete_items
clear_listed agent node server dir listing calls =
    let names = λ (items : List (Option String)). map (λ i. text_or i "") items in
    if is_rejected listing.success then (err rejected, calls) else elim listing.items [
      | none ↦ (err bad_listing, calls)
      | some items ↦
          if ltb max_clear_items (length items)
          then (err too_many_items, calls)
          else if any is_unsafe_name (names items)
          then (err unsafe_entry, calls)
          else delete_items agent node server dir (names items) calls
    ]

unfoldable pub clear_directory_of :
    Agent → String → String → Option String → List Call → Trace (Unit {0})
unfolding check_target_path clear_listed
clear_directory_of agent node server target calls = elim (check_target_path target) [
  | err e ↦ (err e, calls)
  | ok dir ↦ perform agent (lists_directory node server dir) calls >>= λ listing.
      clear_listed agent node server dir listing
]

-- `result?.success === false`
abbrev checked : Reply → List Call → Trace (Unit {0})
checked r calls = (if is_rejected r.success then err rejected else ok tt, calls)

-- The `switch` of `execute` and the check of its result.
unfoldable pub run_action : Agent → Schedule → ServerRecord → Action → List Call → Trace (Unit {0})
unfolding clear_directory_of
run_action agent x server restart calls =
    perform agent (restarts_databases server.id) calls >>= λ _ calls'.
    perform agent (restarts_server server.node_id server.id) calls' >>= checked
run_action agent x server start calls =
    perform agent (starts_databases server.id) calls >>= λ _ calls'.
    perform agent (starts_server server.node_id server.id) calls' >>= checked
run_action agent x server stop calls =
    perform agent (stops_server server.node_id server.id) calls >>= λ result calls'.
    perform agent (stops_databases server.id) calls' >>= λ _. checked result
run_action agent x server Action.command calls =
    perform agent (sends_command server.node_id server.id x.configuration.command) calls >>= checked
run_action agent x server backup_create calls =
    perform agent (creates_backup server.id x.configuration.storage) calls >>= checked
run_action agent x server backup_delete calls =
    perform agent (deletes_oldest_backup server.id x.configuration.storage) calls >>= checked
run_action agent x server clear_directory calls =
    clear_directory_of agent server.node_id server.id x.configuration.target_path calls

abbrev is_true : Option String → Bool
is_true none = false
is_true (some v) = v == "true"

-- `isFrozen`
unfoldable pub is_frozen : ServerRecord → Bool
is_frozen server =
    server.status == "frozen" || is_true (get "AGAPORNIS_FROZEN" (get_or server.variables []))

abbrev pub may_run : ServerRecord → Option User → Action → Bool
may_run server none action = false
may_run server (some actor) action =
    can_perform (some server) actor schedules
    && can_perform (some server) actor (required_permission action)

abbrev pub actor_of : (String → Option User) → Option String → Option User
actor_of find_user none = none
actor_of find_user (some id) = if is_empty id then none else find_user id

-- `server` is what the registry holds of the schedule's server, `find_user` is `findByIdForAuth`.
unfoldable pub execute :
    Agent → Option ServerRecord → (String → Option User) → Schedule → Trace (Unit {0})
unfolding run_action
execute agent none find_user x = (err server_missing, [])
execute agent (some server) find_user x =
    if is_frozen server
    then (err server_frozen, [])
    else if may_run server (actor_of find_user x.actor_user_id) x.action
    then run_action agent x server x.action []
    else (err no_permission, [])
