-- ===== src/Metric/Parse.antt =====
-- `Parse`, `validateAndExtractValue` and `handleMetricValue` of internal/metric/metric.go.
use access_log_exporter.Prelude.{
  ℕ, Bool, true, false, ◌||◌, List, [], ◌∷◌, none, some, Bytes, codes, str_eq, length, is_empty,
  leb, if◌then◌else◌, Result, ok, err, panic, index, ◌>>=◌,
}
use access_log_exporter.Float.{FloatOps}
use access_log_exporter.Metric.Types.{Error, value_index_out_of_range, set_failed, Call, Metric}
use access_log_exporter.Metric.Act
use access_log_exporter.Metric.Act.{Frame, Outcome, Act}
use access_log_exporter.Metric.Replace.{value_replacements}
use access_log_exporter.Metric.Set.{set_metric, handle_counter_increment}
use access_log_exporter.Metric.Upstream.{set_metric_with_upstream}
use access_log_exporter.Metric.Labels.{get_labels_from_pool, return_labels_to_pool, process_labels}

unfoldable pub replace_value : Metric → Bytes → Result Error (Bytes × Bool)
replace_value m value = elim m.cfg.replacements [
  | none ↦ ok (value, false)
  | some replacements ↦ do replaced ← value_replacements replacements value; ok (replaced, false)
]

-- the value at the configured index
unfoldable pub extract_at : Metric → List Bytes → ℕ → Result Error (Bytes × Bool)
unfolding replace_value
extract_at m line i =
    if leb (length line) i then err (value_index_out_of_range i (length line)) else do
      value ← index line i
      if is_empty value || str_eq value (codes "-") then ok ([], true) else replace_value m value

-- the part behind the test for an empty line
unfoldable pub extract_value : Metric → List Bytes → Result Error (Bytes × Bool)
unfolding extract_at
extract_value m line = elim m.cfg.value_index [
  | none ↦ ok ([], false)
  | some i ↦ extract_at m line i
]

-- The flag tells to skip the line.
unfoldable pub validate_and_extract_value : Metric → List Bytes → Result Error (Bytes × Bool)
unfolding extract_value
validate_and_extract_value m [] = ok ([], true)
validate_and_extract_value m (first ∷ rest) =
    if is_empty first then ok ([], true) else extract_value m (first ∷ rest)

abbrev pub wrap_error : {A : Type 0} → (Error → Error) → Act A → Act A
wrap_error wrap act s = elim (act s) [
  | Outcome.ok a t ↦ Outcome.ok a t
  | Outcome.err e t ↦ Outcome.err (wrap e) t
  | Outcome.panic p t ↦ Outcome.panic p t
]

module _ (fl : FloatOps) where
  unfoldable pub handle_metric_value : Metric → List Bytes → Bytes → Act (Unit {0})
  handle_metric_value m line value = elim m.cfg.value_index [
    | none ↦ handle_counter_increment m
    | some _ ↦
        if is_empty value
        then Act.return tt
        else if m.cfg.upstream.enabled
        then set_metric_with_upstream fl m line value
        else wrap_error (set_failed m.cfg.name value) (set_metric fl m value)
  ]

  -- what is done with the slice of labels in hand
  unfoldable pub handle_line : Metric → List Bytes → Bytes → Act (Unit {0})
  handle_line m line value = Act.◌>>◌ (process_labels m line) (handle_metric_value m line value)

-- The metric after a line, the calls on its vector in their order, and the result.
pub record Parsed : Type 0 where
  pub after : Metric
  pub calls : List Call
  pub result : Result Error (Unit {0})

-- The deferred `returnLabelsToPool` runs whatever the outcome.
unfoldable pub release : Metric → List (List Bytes) → Outcome (Unit {0}) → Parsed
release m pool (Outcome.ok a s) = record {
  after = return_labels_to_pool m s.labels pool;
  calls = s.calls;
  result = ok a;
}
release m pool (Outcome.err e s) = record {
  after = return_labels_to_pool m s.labels pool;
  calls = s.calls;
  result = err e;
}
release m pool (Outcome.panic p s) = record {
  after = return_labels_to_pool m s.labels pool;
  calls = s.calls;
  result = panic p;
}

-- `Parse` behind its first call, by what that call returned
unfoldable pub proceed : FloatOps → Metric → ℕ → List Bytes → Result Error (Bytes × Bool) → Parsed
proceed fl m choice line (err e) = record { after = m; calls = []; result = err e }
proceed fl m choice line (panic p) = record { after = m; calls = []; result = panic p }
proceed fl m choice line (ok (value, true)) = record { after = m; calls = []; result = ok tt }
proceed fl m choice line (ok (value, false)) =
    let (labels, pool) = get_labels_from_pool m choice in
    release m pool (handle_line fl m line value (record { labels = labels; calls = [] }))

unfoldable pub parse : FloatOps → Metric → ℕ → List Bytes → Parsed
unfolding proceed
parse fl m choice line = proceed fl m choice line (validate_and_extract_value m line)
