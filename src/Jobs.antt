-- ===== src/Jobs.antt =====
-- Provisioning jobs: src/modules/servers/services/provisioning-jobs.service.ts without Redis, so that
-- `persist` stores nothing and `redis.subscribe` brings nothing. The promise of a run becomes
-- calls of its callbacks (Jobs/Runs), which the event loop makes in some order (Jobs/Events). A result is a text. Times are milliseconds.
pub mod Runs
pub mod Events
pub mod Callbacks
pub mod Progress
pub mod Delivery
pub mod Endings
mod Tests
use agapornis_api.Common.{
  ℕ, ◌-◌, min, String, Bool, true, false, not, ◌&&◌, ◌||◌, Option, none, some, List, [], ◌∷◌, ◌++◌,
  map, if◌then◌else◌, ◌==◌, string_eq, nat_eq, length, drop, take_last, last?, filter, any, get_or,
  or_else, is_some,
}
use agapornis_api.Common.Dict.{get, set, delete}
use agapornis_api.Common.Text.{text_or, is_empty}
use agapornis_api.Registry.Types.{Role, User}

pub data JobStatus : Type 0 where
  queued running complete failed : JobStatus

pub record ProgressEvent : Type 0 where
  pub phase : String
  pub progress : ℕ
  pub message : String
  pub at : ℕ

pub record Job : Type 0 where
  pub id : String
  pub server_id : String
  pub node_id : Option String
  pub kind : Option String
  pub requested_by : String
  pub status : JobStatus
  pub phase : String
  pub progress : ℕ
  pub message : String
  pub created_at : ℕ
  pub updated_at : ℕ
  pub history : List ProgressEvent
  pub result : Option String
  pub error_message : Option String

-- A job without `requestedBy`.
pub record PublicJob : Type 0 where
  pub id : String
  pub server_id : String
  pub node_id : Option String
  pub kind : Option String
  pub status : JobStatus
  pub phase : String
  pub progress : ℕ
  pub message : String
  pub created_at : ℕ
  pub updated_at : ℕ
  pub history : List ProgressEvent
  pub result : Option String
  pub error_message : Option String

unfoldable pub public_job : Job → PublicJob
public_job j = record {
  id = j.id;
  server_id = j.server_id;
  node_id = j.node_id;
  kind = j.kind;
  status = j.status;
  phase = j.phase;
  progress = j.progress;
  message = j.message;
  created_at = j.created_at;
  updated_at = j.updated_at;
  history = j.history;
  result = j.result;
  error_message = j.error_message;
}

pub record Presentation : Type 0 where
  pub queued_message : Option String
  pub starting_phase : Option String
  pub starting_progress : Option ℕ
  pub starting_message : Option String
  pub complete_message : Option String
  pub failed_message : Option String

-- How far the `run` of a job is: it waits for `setImmediate`, its heartbeat is set, or its cleanup.
pub data Stage : Type 0 where
  waiting under_way ended : Stage

pub record Run : Type 0 where
  pub stage : Stage
  pub presentation : Presentation

-- A listener is a function, told apart by its number; `user` is whom it was subscribed for.
pub record Listener : Type 0 where
  pub number : ℕ
  pub user : User

-- `runs` are the runs in memory, and `sent` the calls of listeners so far.
pub record Jobs : Type 0 where
  pub jobs : List (String × Job)
  pub listeners : List (String × List Listener)
  pub runs : List (String × Run)
  pub sent : List (Listener × PublicJob)

-- `this.progress(value)`, of a whole number.
abbrev pub progress_of : ℕ → ℕ
progress_of value = min 99 value

-- The field `progress` of every patch is given, and `result` or `errorMessage` at the end.
pub record Patch : Type 0 where
  pub status : JobStatus
  pub phase : String
  pub progress : ℕ
  pub message : String
  pub result : Option String
  pub error_message : Option String

abbrev pub in_phase : Option ProgressEvent → String → Bool
in_phase none phase = false
in_phase (some e) phase = e.phase == phase

abbrev pub event_of : Patch → ℕ → ProgressEvent
event_of patch now = record {
  phase = patch.phase;
  progress = progress_of patch.progress;
  message = patch.message;
  at = now;
}

unfoldable pub extended : List ProgressEvent → Patch → ℕ → List ProgressEvent
extended history patch now =
    if not (is_empty patch.phase)
      && not (is_empty patch.message)
      && not (in_phase (last? history) patch.phase)
    then history ++ event_of patch now ∷ []
    else history

unfoldable pub patched : Job → Patch → ℕ → Job
unfolding extended
patched current patch now = record current {
  status = patch.status;
  phase = patch.phase;
  progress = patch.progress;
  message = patch.message;
  result = or_else patch.result current.result;
  error_message = or_else patch.error_message current.error_message;
  history = take_last 30 (extended current.history patch now);
  updated_at = now;
}

abbrev pub calls : List Listener → Job → List (Listener × PublicJob)
calls ls j = map (λ l. (l, public_job j)) ls

abbrev pub listeners_of : Jobs → String → List Listener
listeners_of st id = get_or (get id st.listeners) []

unfoldable pub update : Jobs → String → Patch → ℕ → Jobs
update st id patch now = elim (get id st.jobs) [
  | none ↦ st
  | some current ↦
      let next = patched current patch now in
      record st { jobs = set id next st.jobs; sent = st.sent ++ calls (listeners_of st id) next }
]

-- `start`: `id` is what `randomUUID` gives, `requester` is `String(user?.id || '')`.
unfoldable pub new_job :
    String → ℕ → String → String → Option String → Option String → Presentation → Job
new_job id now requester server_id node_id kind p =
    let message = text_or p.queued_message "Provisioning request queued" in
    record {
      id = id;
      server_id = server_id;
      node_id = node_id;
      kind = kind;
      requested_by = requester;
      status = queued;
      phase = "queued";
      progress = 5;
      message = message;
      created_at = now;
      updated_at = now;
      history = record { phase = "queued"; progress = 5; message = message; at = now } ∷ [];
      result = none;
      error_message = none;
    }

unfoldable pub start : Jobs → Job → Presentation → PublicJob × Jobs
start st job p = (
  public_job job,
  record st {
    jobs = set job.id job st.jobs;
    runs = set job.id (record { stage = waiting; presentation = p }) st.runs;
  },
)

abbrev is_elevated : Role → Bool
is_elevated Role.owner = true
is_elevated Role.admin = true
is_elevated _ = false

unfoldable pub may_see : User → Job → Bool
may_see u job = is_elevated u.role || job.requested_by == u.id

unfoldable pub find_for_user : Jobs → String → User → Option PublicJob
unfolding may_see
find_for_user st id u = elim (get id st.jobs) [
  | none ↦ none
  | some job ↦ if may_see u job then some (public_job job) else none
]

abbrev is_number : ℕ → Listener → Bool
is_number n l = l.number == n

-- `listeners.add(listener)` of a `Set`.
abbrev pub added : Listener → List Listener → List Listener
added l ls = if any (is_number l.number) ls then ls else ls ++ l ∷ []

unfoldable pub subscribe : Jobs → String → Listener → Jobs
unfolding find_for_user
subscribe st id l = elim (find_for_user st id l.user) [
  | none ↦ st
  | some job ↦ record st {
    listeners = set id (added l (listeners_of st id)) st.listeners;
    sent = st.sent ++ (l, job) ∷ [];
  }
]

-- What `subscribe` returned, called once.
abbrev pub without : ℕ → List Listener → List Listener
without n ls = filter (λ l. not (is_number n l)) ls

unfoldable pub unsubscribe : Jobs → String → ℕ → Jobs
unsubscribe st id n = elim (get id st.listeners) [
  | none ↦ st
  | some ls ↦ elim (without n ls) [
    | [] ↦ record st { listeners = delete id st.listeners }
    | l ∷ rest ↦ record st { listeners = set id (l ∷ rest) st.listeners }
  ]
]
