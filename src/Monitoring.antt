-- ===== src/Monitoring.antt =====
-- src/monitoring/health_status.cpp and src/monitoring/metrics.cpp: the health of the runtime's
-- components with its roll-up, and the counters and latencies.
pub mod Health
pub mod Logger
pub mod Metrics
use wall.Prelude.{Bool, List, String, [], false, if◌then◌else◌, suc, true, zero, ℕ, ◌∷◌}

pub data RuntimeComponent : Type 0 where
  ingestion market_data risk execution : RuntimeComponent

pub data HealthStatus : Type 0 where
  unknown healthy degraded unavailable : HealthStatus

abbrev pub component_index : RuntimeComponent → ℕ
component_index ingestion = 0
component_index market_data = 1
component_index risk = 2
component_index execution = 3

-- `component_statuses_`, an array of `component_count_` statuses.
pub record RuntimeHealthStatus : Type 0 where
  pub component_statuses : List HealthStatus

unfoldable pub new_health : RuntimeHealthStatus
new_health = record { component_statuses = unknown ∷ unknown ∷ unknown ∷ unknown ∷ [] }

-- `a[i] = s` and `a[i]`; an index that is out of range, which the array has not, changes nothing
-- and reads `unknown`.
abbrev pub set_at : ℕ → HealthStatus → List HealthStatus → List HealthStatus
set_at i s [] = []
set_at zero s (x ∷ xs) = s ∷ xs
set_at (suc i) s (x ∷ xs) = x ∷ set_at i s xs

abbrev pub get_at : ℕ → List HealthStatus → HealthStatus
get_at i [] = unknown
get_at zero (x ∷ xs) = x
get_at (suc i) (x ∷ xs) = get_at i xs

unfoldable pub set_status :
    RuntimeHealthStatus → RuntimeComponent → HealthStatus → RuntimeHealthStatus
set_status h c s = record h {
  component_statuses = set_at (component_index c) s h.component_statuses;
}

unfoldable pub get_status : RuntimeHealthStatus → RuntimeComponent → HealthStatus
get_status h c = get_at (component_index c) h.component_statuses

-- The loop of `overall_status` with `has_unknown` and `has_degraded`, and what follows it.
unfoldable pub roll_up : List HealthStatus → Bool → Bool → HealthStatus
roll_up [] has_unknown has_degraded =
    if has_degraded then degraded else if has_unknown then unknown else healthy
roll_up (unavailable ∷ ss) has_unknown has_degraded = unavailable
roll_up (degraded ∷ ss) has_unknown has_degraded = roll_up ss has_unknown true
roll_up (unknown ∷ ss) has_unknown has_degraded = roll_up ss true has_degraded
roll_up (healthy ∷ ss) has_unknown has_degraded = roll_up ss has_unknown has_degraded

unfoldable pub overall_status : RuntimeHealthStatus → HealthStatus
overall_status h = roll_up h.component_statuses false false

unfoldable pub status_text : HealthStatus → String
status_text unknown = "unknown"
status_text healthy = "healthy"
status_text degraded = "degraded"
status_text unavailable = "unavailable"
