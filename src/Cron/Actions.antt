-- ===== src/Cron/Actions.antt =====
-- What a run does: `execute` and `executeAction` of cronjobs.service.ts. What the agent, the databases
-- and the webhooks answer to a call is a parameter, which may depend on the calls before.
pub mod Own
use agapornis_api.Common.{
  ℕ, String, Bool, true, false, not, ◌&&◌, ◌||◌, ◌≡◌, refl, sym, arith, inl, inr, Option, none,
  some, List, [], ◌∷◌, if◌then◌else◌, ◌==◌, string_eq, get_or, All, Bool-cases, Result, ok, err,
}
use agapornis_api.Common.Dict.{get}
use agapornis_api.Common.Text.{is_empty}
use agapornis_api.Cron.{CronJob, CronError, no_target, no_command, call_failed, rejected, Payload}

pub data Power : Type 0 where
  restart start stop : Power

-- The calls of `databases`, `client` and `webhooks`, with the node and the server.
pub data Call : Type 0 where
  powers_databases : Power → String → Call
  powers_server : Power → String → String → Call
  sends_command : String → String → String → Call
  dispatches : String → Option String → Call

pub record Reply : Type 0 where
  pub throws : Bool
  pub success : Option Bool

abbrev pub Agent : Type 0
Agent = List Call → Call → Reply

-- What a part of a run returns, and the calls made so far, the last one first.
abbrev pub Trace : Type 0 → Type 0
Trace A = Result CronError A × List Call

abbrev pub perform : Agent → Call → List Call → Trace Reply
perform agent call calls =
    let reply = agent calls call in
    (if reply.throws then err call_failed else ok reply, call ∷ calls)

infixl 5 ◌>>=◌
abbrev pub ◌>>=◌ : {A B : Type 0} → Trace A → (A → List Call → Trace B) → Trace B
(ok a, calls) >>= k = k a calls
(err e, calls) >>= k = (err e, calls)

-- The check of the result, and the event that tells of the action.
abbrev pub told : Agent → String → Reply → List Call → Trace (Unit {0})
told agent event r calls =
    let telling = perform agent (dispatches event none) calls >>= λ _ calls'. (ok tt, calls') in
    if get_or r.success true then telling else (err rejected, calls)

pub data Action : Type 0 where
  restarts starts stops commands : Action

-- `serverActions.includes(action)`; any other action does nothing.
unfoldable pub action_of : String → Option Action
action_of a =
    if a == "server.restart"
    then some restarts
    else if a == "server.start"
    then some starts
    else if a == "server.stop"
    then some stops
    else if a == "server.command"
    then some commands
    else none

abbrev pub field : CronJob → String → String
field job key = get_or (get key job.payload) ""

-- The `switch` of `executeAction`, for a node and a server.
unfoldable pub act : Agent → CronJob → String → String → Action → List Call → Trace (Unit {0})
act agent job node server restarts calls =
    perform agent (powers_databases restart server) calls >>= λ _ calls'.
    perform agent (powers_server restart node server) calls' >>= told agent "server.restarted"
act agent job node server starts calls =
    perform agent (powers_databases start server) calls >>= λ _ calls'.
    perform agent (powers_server start node server) calls' >>= told agent "server.started"
act agent job node server stops calls =
    perform agent (powers_server stop node server) calls >>= λ result calls'.
    perform agent (powers_databases stop server) calls' >>= λ _. told agent "server.stopped" result
act agent job node server commands calls =
    let command = field job "command" in
    if is_empty command
    then (err no_command, calls)
    else perform agent (sends_command node server command) calls
      >>= told agent "server.command_sent"

unfoldable pub execute_action : Agent → CronJob → Trace (Unit {0})
unfolding action_of act
execute_action agent job =
    let node = field job "nodeId" in
    let server = field job "serverId" in
    elim (action_of (field job "action")) [
      | none ↦ (ok tt, [])
      | some a ↦
          if is_empty node || is_empty server
          then (err no_target, [])
          else act agent job node server a []
    ]

-- `execute`, less what it stores.
unfoldable pub execute : Agent → CronJob → Trace (Unit {0})
unfolding execute_action
execute agent job = execute_action agent job >>= λ _ calls.
    perform agent (dispatches job.event_type job.webhook_target_id) calls >>= λ _ calls'.
    (ok tt, calls')
