-- ===== src/Jobs/Runs.antt =====
-- The callbacks of a job's run: the reporter of the task, `run` from its start to its end, the
-- heartbeat and the cleanup, of provisioning-jobs.service.ts.
use agapornis_api.Common.Text.{text_or}
use agapornis_api.Common.{
  ℕ, String, Bool, true, false, Option, none, some, string_eq, get_or, if◌then◌else◌,
}
use agapornis_api.Common.Dict.{get, set, delete}
use agapornis_api.Jobs.{
  JobStatus, running, complete, failed, Jobs, Patch, Presentation, Run, Stage, waiting, under_way,
  ended, update, progress_of,
}

abbrev pub plain : JobStatus → String → ℕ → String → Patch
plain status phase progress message = record {
  status = status;
  phase = phase;
  progress = progress;
  message = message;
  result = none;
  error_message = none;
}

-- The reporter that the task is given.
unfoldable pub report : Jobs → String → String → ℕ → String → ℕ → Jobs
unfolding update
report st id phase progress message now =
    update st id (plain running phase (progress_of progress) message) now

abbrev pub staged : Jobs → String → Run → Stage → Jobs
staged st id r stage = record st { runs = set id (record r { stage = stage }) st.runs }

-- The start of `run`, which `setImmediate` calls.
unfoldable pub begin : Jobs → String → ℕ → Jobs
unfolding report
begin st id now = elim (get id st.runs) [
  | none ↦ st
  | some r ↦ elim r.stage [
    | waiting ↦
        staged
          (report st id (text_or r.presentation.starting_phase "validating")
            (get_or r.presentation.starting_progress 15)
            (text_or r.presentation.starting_message "Validating template and resource limits") now)
          id r under_way
    | under_way ↦ st
    | ended ↦ st
  ]
]

abbrev pub is_running : JobStatus → Bool
is_running running = true
is_running _ = false

-- The heartbeat, which is there while the run is under way.
unfoldable pub beat : Jobs → String → ℕ → Jobs
unfolding update
beat st id now = elim (get id st.runs) [
  | none ↦ st
  | some r ↦ elim r.stage [
    | waiting ↦ st
    | ended ↦ st
    | under_way ↦ elim (get id st.jobs) [
      | none ↦ st
      | some current ↦
          let beaten =
            update st id (plain running current.phase current.progress current.message) now in
          if is_running current.status then beaten else st
    ]
  ]
]

-- How the task ends: with a result, or with what it throws, whose texts are these, if it has them.
pub data Outcome : Type 0 where
  returns : Option String → Outcome
  throws : Option String → Option String → Option String → Outcome

unfoldable pub last_patch : Presentation → Outcome → Patch
last_patch p (returns value) = record {
  status = complete;
  phase = "complete";
  progress = 100;
  message = text_or p.complete_message "Server is ready";
  result = value;
  error_message = none;
}
last_patch p (throws error_message response_message message) = record {
  status = failed;
  phase = "failed";
  progress = 100;
  message = text_or p.failed_message "Provisioning failed";
  result = none;
  error_message = some (
      text_or error_message (
        text_or response_message
          (text_or message (text_or p.failed_message "Provisioning failed"))));
}

-- The end of `run`: the last update, and the heartbeat is cleared.
unfoldable pub finish : Jobs → String → Outcome → ℕ → Jobs
unfolding update last_patch
finish st id outcome now = elim (get id st.runs) [
  | none ↦ st
  | some r ↦ elim r.stage [
    | waiting ↦ st
    | under_way ↦ staged (update st id (last_patch r.presentation outcome) now) id r ended
    | ended ↦ st
  ]
]

-- The cleanup, an hour after the run has ended.
unfoldable pub expire : Jobs → String → Jobs
expire st id = elim (get id st.runs) [
  | none ↦ st
  | some r ↦ elim r.stage [
    | waiting ↦ st
    | under_way ↦ st
    | ended ↦ record st {
      jobs = delete id st.jobs;
      listeners = delete id st.listeners;
      runs = delete id st.runs;
    }
  ]
]
