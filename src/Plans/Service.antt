-- ===== src/Plans/Service.antt =====
-- The plans of server-plans.service.ts over the JSON store: `list`, `findByExternalId`, `create`,
-- `update` and `remove`. `localeCompare` of two names is a field of the service.
use agapornis_api.Common.{
  ℕ, String, Bool, true, false, ◌&&◌, ◌||◌, Option, none, some, List, if◌then◌else◌, ◌==◌,
  string_eq, ltb, leb, find, any, Result, ok, err, ◌>>=◌, refuse_if, expect,
}
use agapornis_api.Common.Dict.{get, set, delete, has, values}
use agapornis_api.Common.Sorting.{sort_by}
use agapornis_api.Common.Text.{trim, to_lower, is_empty}
use agapornis_api.Plans.Catalog.{database_type_eq}
use agapornis_api.Plans.Fields.{
  PlanError, already_exists, not_found, swap_over_disk, SwapStorage, server, general,
}
use agapornis_api.Plans.Records.{Plan, PlanRequest}
use agapornis_api.Plans.Literals.{new_plan, next_plan}

pub record Service : Type 0 where
  pub plans : List (String × Plan)
  pub file : Option (List Plan)
  pub locale_le : String → String → Bool

abbrev pub by_name : Service → Plan → Plan → Bool
by_name s a b = s.locale_le a.name b.name

unfoldable pub list_plans : Service → List Plan
unfolding sort_by
list_plans s = sort_by (by_name s) (values s.plans)

abbrev pub save : Service → Service
save s = record s { file = some (list_plans s) }

unfoldable pub normalize_key : String → String
unfolding trim to_lower
normalize_key value = to_lower (trim value)

abbrev pub carries : String → Plan → Bool
carries key plan =
    plan.enabled
    && (normalize_key plan.id == key || any (λ id. normalize_key id == key) plan.external_ids)

unfoldable pub find_by_external_id : Service → String → Option Plan
unfolding list_plans normalize_key
find_by_external_id s value =
    let key = normalize_key value in
    if is_empty key then none else find (carries key) (list_plans s)

abbrev pub is_charged : SwapStorage → Bool
is_charged server = true
is_charged general = false

abbrev pub swap_too_large : Plan → Bool
swap_too_large p =
    is_charged p.swap_memory_storage && leb p.disk_mb p.swap_memory_mb && ltb 0 p.swap_memory_mb

unfoldable pub validate_swap : Plan → Result PlanError (Unit {0})
validate_swap p = refuse_if (swap_too_large p) swap_over_disk

unfoldable pub create : Service → String → ℕ → PlanRequest → Result PlanError (Plan × Service)
create s uuid now input = do
  plan ← new_plan uuid now input
  u₁ ← refuse_if (has plan.id s.plans) already_exists
  u₂ ← validate_swap plan
  ok (plan, save (record s { plans = set plan.id plan s.plans }))

unfoldable pub update : Service → String → ℕ → PlanRequest → Result PlanError (Plan × Service)
update s id now input = do
  existing ← expect not_found (get id s.plans)
  next ← next_plan existing now input
  u₁ ← validate_swap next
  ok (next, save (record s { plans = set existing.id next s.plans }))

unfoldable pub remove : Service → String → Result PlanError Service
remove s id =
    let s' = save (record s { plans = delete id s.plans }) in
    if has id s.plans then ok s' else err not_found
