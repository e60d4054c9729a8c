-- ===== src/Monitoring/Metrics.antt =====
-- `InMemoryMetricsCollector` of src/monitoring/metrics.cpp.
use wall.Core.{Int64}
use wall.Prelude.{String, [], value_or}
use wall.Prelude.Dict.{Dict, insert, lookup}
use wall.Prelude.Int.{max_ℤ, pos, ◌+ℤ◌}

pub record LatencyMetric : Type 0 where
  pub sample_count : Int64
  pub total_ms : Int64
  pub max_ms : Int64

pub record MetricsCollector : Type 0 where
  pub counters : Dict Int64
  pub latencies : Dict LatencyMetric

unfoldable pub new_metrics : MetricsCollector
new_metrics = record { counters = []; latencies = [] }

abbrev pub no_latency : LatencyMetric
no_latency = record { sample_count = pos 0; total_ms = pos 0; max_ms = pos 0 }

unfoldable pub counter : MetricsCollector → String → Int64
counter m name = value_or (lookup name m.counters) (pos 0)

unfoldable pub latency : MetricsCollector → String → LatencyMetric
latency m name = value_or (lookup name m.latencies) no_latency

unfoldable pub increment : MetricsCollector → String → Int64 → MetricsCollector
increment m name delta = record m {
  counters = insert name (value_or (lookup name m.counters) (pos 0) +ℤ delta) m.counters;
}

abbrev pub observed : LatencyMetric → Int64 → LatencyMetric
observed metric duration_ms = record {
  sample_count = metric.sample_count +ℤ pos 1;
  total_ms = metric.total_ms +ℤ duration_ms;
  max_ms = max_ℤ metric.max_ms duration_ms;
}

unfoldable pub observe_latency : MetricsCollector → String → Int64 → MetricsCollector
observe_latency m name duration_ms = record m {
  latencies =
      insert name (observed (value_or (lookup name m.latencies) no_latency) duration_ms)
        m.latencies;
}
