-- ===== src/Plans/Tests.antt =====
-- The plans at concrete requests.
use native.Mathlib.Omega.{arith}
use agapornis_api.Common.{
  String, true, false, ◌≡◌, refl, none, some, List, [], ◌∷◌, is_some, ok, err, Result, string_eq,
}
use agapornis_api.Common.Dict.{get, values}
use agapornis_api.Common.Text.{is_empty, trim, to_lower, strip}
use agapornis_api.Common.Text.Runs.{replace_runs}
use agapornis_api.Plans.Catalog.{listed}
use agapornis_api.Plans.Fields.{
  ratio, PlanError, plan_id, required_string, positive_number, pinned_threads, non_negative_number,
  external_ids,
}
use agapornis_api.Plans.Records.{Plan, PlanRequest}
use agapornis_api.Plans.Literals.{new_plan}
use agapornis_api.Plans.Service.{Service, find_by_external_id}
use agapornis_api.Plans.Histories.{Event, creates, updates, removes, run, IsValid, run-IsValid}
use agapornis_api.Plans.Lookup.{Has, IsNamed, find_by_external_id_iff}

abbrev request : PlanRequest
request = record {
  id = none;
  name = some "Small Box!";
  enabled = none;
  external_ids = some (listed ("SKU-1 " ∷ []));
  egg_id = some " paper ";
  egg_change_allowed = none;
  allowed_egg_ids = none;
  location = none;
  node_id = none;
  memory_mb = some (ratio 2048 0);
  disk_mb = some (ratio 8192 0);
  cpu_limit_percentage = none;
  cpu_pinned_threads = some "0, 2-4";
  swap_memory_mb = some (ratio 512 0);
  swap_memory_storage = some "Server";
  port_count = some (ratio 40 0);
  databases_enabled = none;
  database_limit = none;
  database_memory_mb = none;
  database_disk_mb = none;
  database_cpu_limit_percentage = none;
  database_docker_image = none;
  allowed_database_types = none;
  database_port_range_mode = none;
  database_port_range_start = none;
  database_port_range_end = none;
  backup_limit = none;
  docker_image = none;
  variables = none;
}

abbrev empty : Service
empty = record { plans = []; file = none; locale_le = λ x y. true }

abbrev fields_of : Result PlanError Plan → List String
fields_of (err e) = []
fields_of (ok p) = p.id ∷ p.egg_id ∷ p.cpu_pinned_threads ∷ p.external_ids

made : fields_of (new_plan "abcd1234" 7 request) ≡ "small-box" ∷ "paper" ∷ "0,2-4" ∷ "SKU-1" ∷ []
unfolding new_plan plan_id strip replace_runs to_lower trim required_string positive_number
    pinned_threads non_negative_number external_ids
made = refl

abbrev history : List Event
history = creates "abcd1234" 7 request ∷ updates "small-box" 9 request ∷ removes "other" ∷ []

empty-IsValid : IsValid empty
unfolding get
empty-IsValid k p h = absurd (ground arith)

run-IsValid_example : IsValid (run empty history)
run-IsValid_example = run-IsValid empty history empty-IsValid

find_by_external_id_iff_example :
    let s = run empty history in
    (is_empty (to_lower (trim " sku-1")) ≡ true → find_by_external_id s " sku-1" ≡ none)
    × ((p : Plan)
        → is_empty (to_lower (trim " sku-1")) ≡ false
        → Has (values s.plans) p
        → p.enabled ≡ true
        → IsNamed p " sku-1"
        → is_some (find_by_external_id s " sku-1") ≡ true)
    × ((p : Plan)
        → find_by_external_id s " sku-1" ≡ some p
        → Has (values s.plans) p × (p.enabled ≡ true) × IsNamed p " sku-1")
find_by_external_id_iff_example = find_by_external_id_iff (run empty history) " sku-1"
