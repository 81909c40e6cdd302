-- ===== src/Metric/Upstream.antt =====
-- The handling of several values in one field, each with the upstream server that it belongs to:
-- `setMetricWithUpstream` and the functions below it in internal/metric/metric.go.
use access_log_exporter.Prelude.{
  ℕ, zero, suc, ◌+◌, ◌-◌, Bool, true, false, not, ◌&&◌, List, [], ◌∷◌, map, none, some, Bytes,
  codes, str_eq, contains_str, length, is_empty, leb, if◌then◌else◌, Result, ok, err, index,
  no_fuel,
}
use access_log_exporter.Prelude
use access_log_exporter.Strings.Search.{cut}
use access_log_exporter.Strings.Split.{split}
use access_log_exporter.Strings.Space.{trim_space}
use access_log_exporter.Float.{FloatOps}
use access_log_exporter.Metric.Types.{Error, upstream_index_out_of_range, Metric}
use access_log_exporter.Metric.Act.{Act, panic, return, lift, set_label, ◌>>=◌, ◌>>◌}
use access_log_exporter.Metric.Set.{set_metric}

unfoldable pub parse_upstreams : Metric → List Bytes → Result Error (List Bytes)
parse_upstreams m line =
    if is_empty m.cfg.upstream.excludes && not m.cfg.upstream.label
    then ok []
    else if leb (length line) m.cfg.upstream.addr_line_index
    then err (upstream_index_out_of_range m.cfg.upstream.addr_line_index (length line))
    else Prelude.◌>>=◌ (index line m.cfg.upstream.addr_line_index)
        (λ addrs. ok (map trim_space (split addrs b',')))

-- the value up to the next comma, and what remains behind it
unfoldable pub extract_next_value : Bytes → Bytes × Bytes
extract_next_value value = elim (cut value b',') [
  | some (before, after) ↦ (trim_space before, after)
  | none ↦ (trim_space value, [])
]

-- The last upstream serves the values that have none of their own.
unfoldable pub get_upstream_for_value : List Bytes → ℕ → Result Error Bytes
get_upstream_for_value upstreams value_index =
    index upstreams
      (if leb (length upstreams) value_index then length upstreams - 1 else value_index)

unfoldable pub is_upstream_excluded : Metric → Bytes → Bool
is_upstream_excluded m upstream =
    not (is_empty m.cfg.upstream.excludes) && contains_str m.cfg.upstream.excludes upstream

unfoldable pub add_upstream_label : Metric → Bytes → Act (Unit {0})
add_upstream_label m upstream =
    if m.cfg.upstream.label then set_label (length m.cfg.labels) upstream else return tt

module _ (fl : FloatOps) (m : Metric) where
  unfoldable pub process_value_with_upstream : Bytes → List Bytes → ℕ → Act (Unit {0})
  unfolding add_upstream_label
  process_value_with_upstream value upstreams value_index = elim (is_empty upstreams) [
    | true ↦ set_metric fl m value
    | false ↦ do
      upstream ← lift (get_upstream_for_value upstreams value_index)
      elim (is_upstream_excluded m upstream) [
        | true ↦ return tt
        | false ↦ do add_upstream_label m upstream; set_metric fl m value
      ]
  ]

  -- the part of a round before `valueIndex++`
  unfoldable pub process_element : Bytes → List Bytes → ℕ → Act (Unit {0})
  process_element value upstreams value_index =
      if not (str_eq value (codes "-"))
      then process_value_with_upstream value upstreams value_index
      else return tt

  -- The loop, on fuel; `value` and `valueIndex` are its variables.
  unfoldable pub process_values : ℕ → Bytes → List Bytes → ℕ → Act (Unit {0})
  process_values zero value upstreams value_index = panic no_fuel
  process_values (suc fuel) value upstreams value_index =
      let (element, remaining) = extract_next_value value in
      do
        process_element element upstreams value_index
        elim (is_empty remaining) [
          | true ↦ return tt
          | false ↦ process_values fuel remaining upstreams (value_index + 1)
        ]

  -- Each round leaves less of the value, so its length is fuel enough.
  unfoldable pub process_comma_delimited_values : Bytes → List Bytes → Act (Unit {0})
  process_comma_delimited_values value upstreams =
      process_values (suc (length value)) value upstreams 0

  unfoldable pub set_metric_with_upstream : List Bytes → Bytes → Act (Unit {0})
  set_metric_with_upstream line value = do
    upstreams ← lift (parse_upstreams m line)
    process_comma_delimited_values value upstreams
