-- ===== src/Lib.antt =====
-- Verification library of the Agapornis API (the NestJS master of the Agapornis agents).
--
-- Parts and how they interact. A controller checks a request's user against the registry of servers
-- (who may see and do what), changes a server through the registry, and hands work to services that
-- keep a state of their own. Each module below models one service: its state is a record, and each
-- of its methods is a function from the state to the new state and the result. Calls that throw
-- return `Result` (Common/Results.antt).
--
-- Registry: src/modules/servers/services/server-registry.service.ts with server-registry.types.ts and
--   server-status.ts. Registry/Types has the records, Registry/Access `canAccess`, `canWrite`,
--   `canManageAccess`, `canPerform` and `accessFor`, Registry/Store `upsert` and `remove`,
--   Registry/Lifecycle the reservation, claim and status calls, Registry/Sharing the collaborators
--   and Registry/Ports the port allocation. A call of Registry/Lifecycle and `reserveRandomPort` reads
--   before an `await` and writes after it: what it read and the store in which it goes on are two
--   arguments. Lifecycle/Steps has the interleavings of these parts.
-- Schedules: src/modules/servers/services/server-schedules.service.ts. Schedules/Config checks a
--   request's body, Schedules/Service is the store of schedules with its timers and runs
--   (`create`, `update`, `remove`, `runNow`, the timer's callback and the end of a run), and
--   Schedules/Execution is `execute` with `clearDirectory`. A run asks the registry for the server
--   and for the permissions of the schedule's owner. A schedule object has a number, its identity,
--   which the code compares by `!==`; an update makes a new object. Service/Events has the
--   interleavings: calls, timers that go off and runs that end come in any order.
-- Bans: src/modules/bans/bans.service.ts, with `create`, `revoke`, `assertAllowed` and what they
--   call.
-- Auth: the bootstrap tokens of agents (Auth/Bootstrap,
--   src/modules/bootstrap-token/bootstrap-token.service.ts), the invites of users (Auth/Invites,
--   src/modules/auth/registration-invites.service.ts), the second factor (Auth/TwoFactor,
--   src/modules/auth/two-factor.service.ts), the password policy (Auth/Passwords,
--   src/modules/auth/password-policy.ts) and the reset tokens (Auth/Resets,
--   src/modules/auth/password-reset.service.ts).
-- Jobs: src/modules/servers/services/provisioning-jobs.service.ts. A job's run is the calls that the
--   event loop makes of its callbacks: the start, the heartbeat, the task's reports and its end, and
--   the cleanup (Jobs/Runs). Jobs/Events has their interleavings with the calls of the service.
-- Tickets: src/modules/tickets/tickets.service.ts. Tickets has the calls that change a ticket in
--   place, Tickets/Copies what `copy` shows of it to whom, Tickets/Histories their sequences.
--   The notifications and mails that the calls send are not modelled.
-- Cron: src/modules/cronjobs/cronjobs.service.ts. Cron has the store of jobs with its timers and runs,
--   Cron/Actions what a run calls (`execute` and `executeAction`), Cron/Events the interleavings.
-- Placement: src/modules/servers/services/server-placement.service.ts, the choice of the node of a new
--   server from the records of the registry and the ports in use. Placement has the allocation sums,
--   the filters and the comparison, Placement/Quotient the double that `/` gives of two whole numbers;
--   `Fleet` holds what the service asks the others for.
-- Plans: src/modules/servers/services/server-plans.service.ts and database-catalog.ts. Plans/Fields
--   checks a request's fields, Plans/Literals has the object literals of `create` and `update`,
--   Plans/Service the store of plans.
-- Notifications: src/modules/notifications/notifications.service.ts, every call, with `prune` as the
--   loop over the sorted records (`prune_from`).
-- NodeStats: `withAnalytics` of src/modules/agents/node-stats.service.ts, the samples of each node.
--
-- Parameters: the digests of a token, `isIP` of node:net, the order of `localeCompare`, whether a user
-- exists, with what name and role, the ids and keys that `crypto` draws, the replies of an agent, what
-- `JSON.parse` reads in a list of port mappings, and `toLocaleLowerCase` of a password.
-- Redis is switched off.
--
-- Common holds what the parts share: tests, lists, `Map` as an association list (Common/Dict), the
-- string methods (Common/Text) and `Result`.
--
-- Representation. Strings are lists of code points; `toLowerCase` and `toUpperCase` change ASCII
-- letters, and `length` counts UTF-16 units. Whole numbers are the native ones. Times are
-- milliseconds since the epoch, given to a call as an argument. `Map` keeps its insertion order.
-- The storage is the JSON fallback, in which `database.enabled` is false; the statements that the
-- services send to PostgreSQL and MySQL are not modelled unless a part says so.
--
-- Not modelled: the HTTP controllers and guards, the gRPC calls to the agents and their certificates,
-- the e-mail, webhook and catalog calls, the SQL branches and the reading of stored files with their
-- older fields. The users, the sessions, the eggs, the databases and backups of servers and the rest
-- of the node statistics (`refresh`, the cache, the listeners) have no module yet.
--
-- Loops recur on their lists or on the number of rounds that is left, so no fuel can run out. The
-- spacing of a double (Placement/Quotient) is found in 256 doublings, and a quotient of whole numbers
-- below 2^53 needs 128 of them at most.
pub mod Common
pub mod Registry
pub mod Schedules
pub mod Bans
pub mod Auth
pub mod Jobs
pub mod Tickets
pub mod Cron
pub mod Placement
pub mod Plans
pub mod Notifications
pub mod NodeStats
