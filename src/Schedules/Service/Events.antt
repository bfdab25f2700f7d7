-- ===== src/Schedules/Service/Events.antt =====
-- What may happen to the schedules service: the calls of the controller, a timer that goes off and
-- an execution that ends, in any order. A call that throws has stored nothing.
use agapornis_api.Common.{ℕ, String, Bool, List, [], ◌∷◌, Result, ok, err}
use agapornis_api.Schedules.Config.{ScheduleError}
use agapornis_api.Schedules.Service.{
  Service, Entry, Request, create, update, remove, run_now, fire, settle,
}

pub data Event : Type 0 where
  creates : String → ℕ → String → String → Request → Event
  updates : String → ℕ → String → Request → Event
  removes runs_now : String → String → Event
  fires : String → ℕ → Event
  settles : String → Bool → ℕ → Event

abbrev pub left_by : Service → Result ScheduleError (Entry × Service) → Service
left_by s (ok (e, s')) = s'
left_by s (err e) = s

abbrev pub changed_by : Service → Result ScheduleError Service → Service
changed_by s (ok s') = s'
changed_by s (err e) = s

abbrev pub step : Service → Event → Service
step s (creates id now server_id node_id body) = left_by s (create s id now server_id node_id body)
step s (updates id now server_id body) = left_by s (update s id now server_id body)
step s (removes id server_id) = changed_by s (remove s id server_id)
step s (runs_now id server_id) = changed_by s (run_now s id server_id)
step s (fires id now) = fire s id now
step s (settles id failed now) = settle s id failed now

unfoldable pub run : Service → List Event → Service
run s [] = s
run s (e ∷ es) = run (step s e) es
