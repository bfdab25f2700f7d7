-- ===== src/Jobs/Events.antt =====
-- The histories of the jobs: calls of the service, and the callbacks of the runs, in any order.
use agapornis_api.Common.{ℕ, String, Option, none, ◌≡◌, List, [], ◌∷◌, string_eq}
use agapornis_api.Common.Dict.{get}
use agapornis_api.Jobs.{Jobs, Presentation, Listener, new_job, start, subscribe, unsubscribe}
use agapornis_api.Jobs.Runs.{Outcome, report, begin, beat, finish, expire}

pub data Step : Type 0 where
  starts : String → ℕ → String → String → Option String → Option String → Presentation → Step
  subscribes : String → Listener → Step
  unsubscribes : String → ℕ → Step
  begins beats : String → ℕ → Step
  reports : String → String → ℕ → String → ℕ → Step
  finishes : String → Outcome → ℕ → Step
  expires : String → Step

unfoldable pub apply : Jobs → Step → Jobs
unfolding start
apply st (starts id now requester server on_node kind p) =
    (start st (new_job id now requester server on_node kind p) p).1
apply st (subscribes id l) = subscribe st id l
apply st (unsubscribes id n) = unsubscribe st id n
apply st (begins id now) = begin st id now
apply st (beats id now) = beat st id now
apply st (reports id phase progress message now) = report st id phase progress message now
apply st (finishes id outcome now) = finish st id outcome now
apply st (expires id) = expire st id

unfoldable pub run : Jobs → List Step → Jobs
run st [] = st
run st (s ∷ steps) = run (apply st s) steps

-- A job that starts has an id that no job, listener or run has.
abbrev pub IsFresh : Jobs → Step → Type 0
IsFresh st (starts id now requester server on_node kind p) =
    (get id st.jobs ≡ none) × (get id st.listeners ≡ none) × (get id st.runs ≡ none)
IsFresh st _ = Unit

abbrev pub AllFresh : Jobs → List Step → Type 0
AllFresh st [] = Unit
AllFresh st (s ∷ steps) = IsFresh st s × AllFresh (apply st s) steps
