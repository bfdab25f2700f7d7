-- ===== src/Cron/Actions/Own.antt =====
-- What the calls of a run touch.
use agapornis_api.Common.{
  false, ◌||◌, ◌≡◌, arith, inl, inr, [], string_eq, All, Bool-cases, Option-cases, ok, err,
}
use agapornis_api.Common.Text.{is_empty}
use agapornis_api.Cron.{CronJob}
use agapornis_api.Cron.Actions.{
  Action, Agent, Call, Trace, restarts, starts, stops, commands, powers_databases, powers_server,
  sends_command, dispatches, field, act, action_of, execute, execute_action, perform, ◌>>=◌,
}

-- A call that touches a server touches the one that the job names.
abbrev pub IsOwn : CronJob → Call → Type 0
IsOwn job (powers_databases p server) = server ≡ field job "serverId"
IsOwn job (powers_server p node server) =
    (node ≡ field job "nodeId") × (server ≡ field job "serverId")
IsOwn job (sends_command node server command) =
    (node ≡ field job "nodeId")
    × (server ≡ field job "serverId")
    × (command ≡ field job "command")
    × (is_empty command ≡ false)
IsOwn job (dispatches event target) = Unit

act-IsOwn :
    (agent : Agent) (job : CronJob) (a : Action)
    → All (IsOwn job) (act agent job (field job "nodeId") (field job "serverId") a []).1
unfolding act
act-IsOwn agent job restarts = ground arith
act-IsOwn agent job starts = ground arith
act-IsOwn agent job stops = ground arith
act-IsOwn agent job commands = ground arith

execute_action-IsOwn :
    (agent : Agent) (job : CronJob) → All (IsOwn job) (execute_action agent job).1
unfolding execute_action
execute_action-IsOwn agent job = elim (Option-cases (action_of (field job "action"))) [
  | inl unknown ↦ ground arith
  | inr (a, known) ↦
      elim (Bool-cases (is_empty (field job "nodeId") || is_empty (field job "serverId"))) [
        | inl unnamed ↦ ground arith
        | inr named ↦ ground (arith, act-IsOwn agent job a)
      ]
]

dispatched-IsOwn :
    (agent : Agent) (job : CronJob) (t : Trace (Unit {0}))
    → All (IsOwn job) t.1
    → All
        (IsOwn job)
        (t >>= λ _ calls.
          perform agent (dispatches job.event_type job.webhook_target_id) calls >>= λ _ calls'.
          (ok tt, calls')).1
dispatched-IsOwn agent job (ok tt, calls) h = ground arith
dispatched-IsOwn agent job (err e, calls) h = h

-- Whatever the agent, the databases and the webhooks answer, a run calls them for no server but the
-- one that its job names, on the node that it names, and sends it no command but the job's, which is
-- not empty.
pub execute-IsOwn : (agent : Agent) (job : CronJob) → All (IsOwn job) (execute agent job).1
unfolding execute
execute-IsOwn agent job =
    dispatched-IsOwn agent job (execute_action agent job) (execute_action-IsOwn agent job)
