-- ===== src/NodeStats/Tests.antt =====
-- The samples at concrete readings.
use agapornis_api.Common.{
  true, false, ◌≡◌, refl, inr, none, some, List, [], ◌∷◌, map, filter, take_last, string_eq,
}
use agapornis_api.Common.Dict.{get}
use agapornis_api.NodeStats.{Reading, Service, sample_of, history_of, observed_status_since}
use agapornis_api.NodeStats.Window.{of_node, run, run_window}
use agapornis_api.NodeStats.Since.{observed_status_since_run}

abbrev well : Reading
well = record {
  node_id = "n1";
  collected_at = 10;
  healthy = true;
  response_time_ms = some 4;
  cpu = some (250, 2);
  memory_usage = some 1;
  memory_total = some 3;
  disk_usage = none;
  disk_total = none;
}

abbrev down : Reading
down = record well { collected_at = 5; healthy = false; response_time_ms = none }

abbrev other : Reading
other = record well { node_id = "n2" }

abbrev service : Service
service = record { refresh_interval_ms = 10000; sample_limit = 2; samples = [] }

abbrev rows : List Reading
rows = down ∷ well ∷ other ∷ record well { collected_at = 20 } ∷ []

run_window_example :
    history_of (run service rows) "n1" ≡ take_last 2 (map sample_of (filter (of_node "n1") rows))
unfolding get
run_window_example = run_window service rows "n1" refl

observed_status_since_run_example :
    observed_status_since (sample_of down ∷ sample_of well ∷ sample_of well ∷ []) ≡ some 10
observed_status_since_run_example =
    observed_status_since_run true (sample_of down ∷ []) (sample_of well) (sample_of well ∷ [])
      (inr ([], sample_of down, refl, refl)) (refl, (refl, tt))
