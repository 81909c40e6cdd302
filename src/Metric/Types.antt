-- ===== src/Metric/Types.antt =====
-- The state of a metric (internal/metric/types.go), and the errors of its operations.
use access_log_exporter.Prelude.{ℕ, List, Option, Bytes}
use access_log_exporter.Float.{Float64}
use access_log_exporter.Config.Types.{MetricConfig}
use access_log_exporter.Useragent

-- The errors, by the place that makes them and the values that they print.
pub data Error : Type 0 where
  empty_name value_index_required empty_label_name : Error
  unsupported_type : Bytes → Error
  value_index_out_of_range : ℕ → ℕ → Error
  label_index_out_of_range : Bytes → ℕ → Error
  upstream_index_out_of_range : ℕ → ℕ → Error
  value_index_nil : Error
  parse_value : Bytes → Error
  negative_counter : Float64 → Error
  set_failed : Bytes → Bytes → Error → Error

pub data Kind : Type 0 where
  counter_vec gauge_vec histogram_vec : Kind

-- The Prometheus vector, by what its constructor is given. `buckets` is empty but for a histogram.
pub record Vec : Type 0 where
  pub kind : Kind
  pub name : Bytes
  pub help : Bytes
  pub const_labels : List (Bytes × Bytes)
  pub buckets : List Float64
  pub label_keys : List Bytes

-- A change of a vector: the method called on `WithLabelValues(labels...)`.
pub data Call : Type 0 where
  inc : List Bytes → Call
  add : List Bytes → Float64 → Call
  set : List Bytes → Float64 → Call
  observe : List Bytes → Float64 → Call

-- `label_count` is the variable that the pool's function `New` captures.
pub record Metric : Type 0 where
  pub metric : Option Vec
  pub ua : Option Useragent.Parser
  pub labels_pool : List (List Bytes)
  pub label_count : ℕ
  pub cfg : MetricConfig
