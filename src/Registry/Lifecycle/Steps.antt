-- ===== src/Registry/Lifecycle/Steps.antt =====
-- The calls that write the registry, taken apart at their `await` and in any order.
pub mod Effects
pub mod Busy
use agapornis_api.Common.{
  ℕ, zero, suc, String, Bool, false, not, ◌&&◌, ◌||◌, Option, none, some, List, [], ◌∷◌, ◌==◌,
  string_eq,
}
use agapornis_api.Registry.Types.{ServerRecord, normalize_status}
use agapornis_api.Registry.Store.{Store, lookup, after, upsert, remove}
use agapornis_api.Registry.Lifecycle.{
  reserve, finalize_provisioning, release_provisioning, claim_deletion, restore_transition,
  claim_transition, finalize_transfer, set_status, Patch, write_settings,
}

-- A call that awaits `get` before it checks and writes.
pub data Call : Type 0 where
  reserves : ServerRecord → Call
  finalizes : String → Option ℕ → Call
  claims_deletion : String → Bool → Call
  restores : String → String → String → Call
  claims_transition : String → String → Call
  transfers : String → String → Option ℕ → String → Call
  sets_status : String → String → Call
  writes : String → Patch → Bool → Call

-- The server that the call is about.
abbrev pub subject : Call → String
subject (reserves r) = r.id
subject (finalizes id port) = id
subject (claims_deletion id allow) = id
subject (restores id t status) = id
subject (claims_transition id t) = id
subject (transfers id target port status) = id
subject (sets_status id status) = id
subject (writes id patch initial) = id

-- The rest of a call, after `get` gave `read`.
unfoldable pub resume : Call → Option ServerRecord → Store → Store
resume (reserves r) read st = after st (reserve read st r)
resume (finalizes id port) read st = after st (finalize_provisioning read st port)
resume (claims_deletion id allow) read st = after st (claim_deletion read st allow)
resume (restores id t status) read st = (restore_transition read st t status).1
resume (claims_transition id t) read st = after st (claim_transition read st t)
resume (transfers id target port status) read st =
    after st (finalize_transfer read st target port status)
resume (sets_status id status) read st = (set_status read st status).1
resume (writes id patch initial) read st = after st (write_settings read st patch initial)

-- A call that is under way, with what it read.
pub record Waiting : Type 0 where
  pub call : Call
  pub read : Option ServerRecord

pub record Registry : Type 0 where
  pub store : Store
  pub waiting : List Waiting

-- A call is made and reads; the waiting call at a place goes on to its end; or a call without an
-- `await` before its write runs: `releaseProvisioning`, `remove`, or the public `upsert`, through
-- which the controllers store as well. (The calls for collaborators are in Registry.Sharing.)
pub data Event : Type 0 where
  starts : Call → Event
  goes_on : ℕ → Event
  releases : String → Event
  removes : String → Event
  stores : ServerRecord → Event

abbrev pub nth : ℕ → List Waiting → Option Waiting
nth n [] = none
nth zero (w ∷ ws) = some w
nth (suc n) (w ∷ ws) = nth n ws

abbrev pub without : ℕ → List Waiting → List Waiting
without n [] = []
without zero (w ∷ ws) = ws
without (suc n) (w ∷ ws) = w ∷ without n ws

unfoldable pub step : Registry → Event → Registry
unfolding resume
step reg (starts c) = record reg {
  waiting = record { call = c; read = lookup reg.store (subject c) } ∷ reg.waiting;
}
step reg (goes_on n) = elim (nth n reg.waiting) [
  | none ↦ reg
  | some w ↦ record { store = resume w.call w.read reg.store; waiting = without n reg.waiting }
]
step reg (releases id) = record reg { store = release_provisioning reg.store id }
step reg (removes id) = record reg { store = remove reg.store id }
step reg (stores r) = record reg { store = upsert reg.store r }

-- The calls that may end the status `s` of the server `id`.
abbrev pub ends : Call → String → String → Bool
ends (finalizes k port) s id = k == id && s == "provisioning"
ends (claims_deletion k allow) s id =
    k == id && not (s == "deleting") && (allow || not (s == "provisioning"))
ends (restores k t status) s id = k == id && s == t
ends (transfers k target port status) s id = k == id && s == "transferring"
ends _ s id = false

-- The events that may end the status. A call that goes on was judged when it started.
abbrev pub owns : Event → String → String → Bool
owns (starts c) s id = ends c s id
owns (goes_on n) s id = false
owns (releases k) s id = k == id && s == "provisioning"
owns (removes k) s id = k == id
owns (stores r) s id = r.id == id && not (normalize_status r.status == s)

abbrev pub status_of : Store → String → Option String
status_of st id = elim (lookup st id) [ none ↦ none | some r ↦ some r.status ]

unfoldable pub run : Registry → List Event → Registry
unfolding step
run reg [] = reg
run reg (e ∷ es) = run (step reg e) es
