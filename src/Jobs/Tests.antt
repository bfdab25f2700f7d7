-- ===== src/Jobs/Tests.antt =====
-- The theorems on provisioning jobs, at an installation that is watched.
use agapornis_api.Common.{true, none, some, List, [], ◌∷◌, ◌≡◌, refl, string_eq, arith}
use agapornis_api.Common.Dict.{get, set}
use agapornis_api.Registry.Types.{User, Role}
use agapornis_api.Jobs.{
  Job, Jobs, Presentation, Listener, PublicJob, find_for_user, new_job, start, may_see, subscribe,
  Run, under_way, update, extended, patched, public_job,
}
use agapornis_api.Jobs.Runs.{Outcome, finish, report, begin}
use agapornis_api.Jobs.Events.{
  Step, starts, subscribes, unsubscribes, begins, beats, reports, finishes, apply, run, AllFresh,
}
use agapornis_api.Jobs.Progress.{AllSound, run-AllSound}
use agapornis_api.Jobs.Delivery.{AllMaySee, AllSendDue, run-AllSendDue}
use agapornis_api.Jobs.Endings.{Shows, finish_stays}

abbrev nothing : Jobs
nothing = record { jobs = []; listeners = []; runs = []; sent = [] }

abbrev default_texts : Presentation
default_texts = record {
  queued_message = none;
  starting_phase = none;
  starting_progress = none;
  starting_message = none;
  complete_message = none;
  failed_message = none;
}

abbrev ann : User
ann = record { id = "ann"; role = Role.user }

abbrev watcher : Listener
watcher = record { number = 1; user = ann }

abbrev installing : List Step
installing =
    starts "j" 0 "ann" "s" none none default_texts
    ∷ subscribes "j" watcher
    ∷ begins "j" 1
    ∷ reports "j" "pulling" 60 "Pulling the image" 2
    ∷ []

abbrev to_the_end : List Step
to_the_end = beats "j" 3 ∷ finishes "j" (Outcome.returns none) 4 ∷ []

no_jobs : AllSound nothing
unfolding get
no_jobs id j e = absurd (ground arith)

no_listeners : AllMaySee nothing
unfolding get
no_listeners id ls e = absurd (ground arith)

run-AllSound_example : AllSound (run nothing installing)
run-AllSound_example = run-AllSound nothing installing no_jobs

installing-AllFresh : AllFresh nothing installing
unfolding get
installing-AllFresh = ((refl, refl, refl), (tt, (tt, (tt, tt))))

run-AllSendDue_example : AllSendDue nothing installing
run-AllSendDue_example = run-AllSendDue nothing installing no_listeners installing-AllFresh

abbrev installed : Jobs
installed = run nothing installing

abbrev going_on : List Step
going_on = beats "j" 3 ∷ unsubscribes "j" 1 ∷ []

under_way_job : (j : Job) × (get "j" installed.jobs ≡ some j)
unfolding run apply start new_job subscribe find_for_user may_see begin report update patched
    extended public_job get set
under_way_job = (_, refl)

under_way_run : (r : Run) × (get "j" installed.runs ≡ some r) × (r.stage ≡ under_way)
unfolding run apply start new_job subscribe find_for_user may_see begin report update patched
    extended public_job get set
under_way_run = (_, refl, refl)

ann-sees : may_see ann under_way_job.0 ≡ true
unfolding run apply start new_job subscribe find_for_user may_see begin report update patched
    extended public_job get set under_way_job
ann-sees = refl

finish_stays_example :
    (p : PublicJob) × (find_for_user
        (run (finish installed "j" (Outcome.returns none) 4) going_on)
        "j"
        ann
      ≡ some p)
    × Shows (Outcome.returns none) p
finish_stays_example =
    finish_stays installed "j" (Outcome.returns none) 4 under_way_job.0 under_way_run.0 ann going_on
      under_way_job.1 under_way_run.1 under_way_run.2 ann-sees (tt, (tt, tt))
