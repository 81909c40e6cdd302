-- ===== src/Metric/Set.antt =====
-- `setMetric`, `applyMathTransformations`, `setMetricValue` and `handleCounterIncrement` of
-- internal/metric/metric.go.
use access_log_exporter.Prelude.{not, none, some, Bytes, is_empty, if◌then◌else◌}
use access_log_exporter.Strings.Space.{trim_space}
use access_log_exporter.Float.{Float64, FloatOps, is_zero, is_negative}
use access_log_exporter.Config.Types.{Math}
use access_log_exporter.Metric.Types.{
  unsupported_type, value_index_nil, parse_value, negative_counter, Kind, counter_vec, gauge_vec,
  histogram_vec, inc, add, set, observe, Metric,
}
use access_log_exporter.Metric.Act.{Act, return, fail, call}

divide : FloatOps → Math → Float64 → Float64
divide fl math value = if not (is_zero math.div) then fl.div value math.div else value

multiply : FloatOps → Math → Float64 → Float64
multiply fl math value = if not (is_zero math.mul) then fl.mul value math.mul else value

unfoldable pub apply_math_transformations : FloatOps → Math → Float64 → Float64
unfolding divide multiply
apply_math_transformations fl math value =
    if not math.enabled then value else multiply fl math (divide fl math value)

-- the `switch` on the type of the vector
unfoldable pub set_kind : Kind → Float64 → Act (Unit {0})
set_kind counter_vec value =
    if is_negative value then fail (negative_counter value) else call (λ labels. add labels value)
set_kind gauge_vec value = call (λ labels. set labels value)
set_kind histogram_vec value = call (λ labels. observe labels value)

unfoldable pub set_metric_value : Metric → Float64 → Act (Unit {0})
unfolding set_kind
set_metric_value m value = elim m.metric [
  | none ↦ fail (unsupported_type m.cfg.type)
  | some vec ↦ set_kind vec.kind value
]

unfoldable pub set_metric : FloatOps → Metric → Bytes → Act (Unit {0})
set_metric fl m text =
    let value = trim_space text in
    if is_empty value then return tt else elim (fl.parse_float value) [
      | none ↦ fail (parse_value value)
      | some x ↦ set_metric_value m (apply_math_transformations fl m.cfg.math x)
    ]

-- the type assertion to a counter, and the call
unfoldable pub increment_kind : Kind → Act (Unit {0})
increment_kind counter_vec = call inc
increment_kind _ = fail value_index_nil

unfoldable pub handle_counter_increment : Metric → Act (Unit {0})
unfolding increment_kind
handle_counter_increment m = elim m.metric [
  | none ↦ fail value_index_nil
  | some vec ↦ increment_kind vec.kind
]
