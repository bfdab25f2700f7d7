-- ===== src/NodeStats.antt =====
-- The samples of the nodes: `withAnalytics`, `percentage` and `ratioPercentage` of
-- src/modules/agents/node-stats.service.ts. A number that need not be whole is a fraction, the pair of
-- its numerator and its denominator; what is no finite number is missing, and what is below 0 reads as 0.
pub mod Window
pub mod Since
mod Tests
use agapornis_api.Common.{
  ℕ, ◌+◌, ◌-◌, ◌*◌, ◌/◌, min, String, Bool, true, false, Option, none, some, List, [], ◌∷◌, ◌++◌,
  map, if◌then◌else◌, ◌==◌, string_eq, nat_beq, ltb, get_or, filter, length, drop,
}
use agapornis_api.Common.Dict.{get, set}

abbrev pub Fraction : Type 0
Fraction = ℕ × ℕ

pub record HealthSample : Type 0 where
  pub at : ℕ
  pub healthy : Bool
  pub response_time_ms : Option ℕ
  pub cpu_percentage : Option Fraction
  pub memory_percentage : Option Fraction
  pub disk_percentage : Option Fraction

-- A row of `readLive` with the numbers that the samples take from its `stats`.
pub record Reading : Type 0 where
  pub node_id : String
  pub collected_at : ℕ
  pub healthy : Bool
  pub response_time_ms : Option ℕ
  pub cpu : Option Fraction
  pub memory_usage : Option ℕ
  pub memory_total : Option ℕ
  pub disk_usage : Option ℕ
  pub disk_total : Option ℕ

pub record Service : Type 0 where
  pub refresh_interval_ms : ℕ
  pub sample_limit : ℕ
  pub samples : List (String × List HealthSample)

pub record ResourceSample : Type 0 where
  pub at : ℕ
  pub cpu_percentage : Option Fraction
  pub memory_percentage : Option Fraction
  pub disk_percentage : Option Fraction

-- What `withAnalytics` adds to a row.
pub record Analytics : Type 0 where
  pub response_time_ms : Option ℕ
  pub average_response_time_ms : Option Fraction
  pub availability_percentage : Option Fraction
  pub checks_in_window : ℕ
  pub analytics_window_seconds : ℕ
  pub response_time_history_ms : List (Option ℕ)
  pub resource_history : List ResourceSample
  pub observed_status_since : Option ℕ

abbrev pub percentage : Option Fraction → Option Fraction
percentage none = none
percentage (some (n, d)) = some (min n (100 * d), d)

abbrev pub ratio_percentage : Option ℕ → Option ℕ → Option Fraction
ratio_percentage none total = none
ratio_percentage (some used) none = none
ratio_percentage (some used) (some total) =
    if nat_beq total 0 then none else some (min (used * 100) (100 * total), total)

abbrev pub sample_of : Reading → HealthSample
sample_of row = record {
  at = row.collected_at;
  healthy = row.healthy;
  response_time_ms = row.response_time_ms;
  cpu_percentage = if row.healthy then percentage row.cpu else none;
  memory_percentage =
      if row.healthy then ratio_percentage row.memory_usage row.memory_total else none;
  disk_percentage = if row.healthy then ratio_percentage row.disk_usage row.disk_total else none;
}

-- `history.push(sample)`, and `splice` of what is above the limit.
unfoldable pub pushed : ℕ → List HealthSample → HealthSample → List HealthSample
pushed limit history sample =
    let longer = history ++ sample ∷ [] in
    if ltb limit (length longer) then drop (length longer - limit) longer else longer

abbrev pub history_of : Service → String → List HealthSample
history_of s id = get_or (get id s.samples) []

unfoldable pub timings : List HealthSample → List ℕ
timings [] = []
timings (x ∷ xs) = elim x.response_time_ms [ none ↦ timings xs | some ms ↦ ms ∷ timings xs ]

unfoldable pub sum : List ℕ → ℕ
sum [] = 0
sum (n ∷ ns) = n + sum ns

abbrev pub average : List ℕ → Option Fraction
average [] = none
average (n ∷ ns) = some (sum (n ∷ ns), length (n ∷ ns))

unfoldable pub reversed : List HealthSample → List HealthSample → List HealthSample
reversed [] out = out
reversed (x ∷ xs) out = reversed xs (x ∷ out)

-- The loop back through the history, which is given from its end: `at` is the time of the sample after.
unfoldable pub since_from : Bool → ℕ → List HealthSample → ℕ
since_from state at [] = at
since_from state at (x ∷ xs) =
    let rest = since_from state x.at xs in
    if x.healthy then if state then rest else at else if state then at else rest

abbrev pub since : List HealthSample → Option ℕ
since [] = none
since (x ∷ xs) = some (since_from x.healthy x.at xs)

unfoldable pub observed_status_since : List HealthSample → Option ℕ
unfolding since_from reversed
observed_status_since history = since (reversed history [])

abbrev pub is_healthy : HealthSample → Bool
is_healthy x = x.healthy

abbrev pub resources : HealthSample → ResourceSample
resources x = record {
  at = x.at;
  cpu_percentage = x.cpu_percentage;
  memory_percentage = x.memory_percentage;
  disk_percentage = x.disk_percentage;
}

abbrev pub availability : List HealthSample → Option Fraction
availability [] = none
availability (x ∷ xs) = some (length (filter is_healthy (x ∷ xs)) * 100, length (x ∷ xs))

-- `Math.round(refreshIntervalMs * sampleLimit / 1000)`
abbrev pub window_seconds : Service → ℕ
window_seconds s = (s.refresh_interval_ms * s.sample_limit + 500) / 1000

abbrev pub analytics_of : Service → Reading → List HealthSample → Analytics
analytics_of s row history = record {
  response_time_ms = row.response_time_ms;
  average_response_time_ms = average (timings history);
  availability_percentage = availability history;
  checks_in_window = length history;
  analytics_window_seconds = window_seconds s;
  response_time_history_ms = map (λ (x : HealthSample). x.response_time_ms) history;
  resource_history = map resources history;
  observed_status_since = observed_status_since history;
}

unfoldable pub with_analytics : Service → Reading → Analytics × Service
unfolding pushed
with_analytics s row =
    let history = pushed s.sample_limit (history_of s row.node_id) (sample_of row) in
    (analytics_of s row history, record s { samples = set row.node_id history s.samples })
