-- ===== src/Metric/History.antt =====
-- Runs of a metric of internal/metric/metric.go over several lines, and the pool of label slices.
use access_log_exporter.Prelude.{
  ℕ, zero, suc, ◌+◌, ◌≡◌, refl, sym, ap, ap₂, subst, fun_ext, ◌∙◌, Bool, true, false, List, [], ◌∷◌,
  map, none, some, Bytes, length, All, is_empty, Result, ok, err, panic, if◌then◌else◌,
}
use access_log_exporter.Float.{FloatOps}
use access_log_exporter.Config.Types.{Label}
use access_log_exporter.Metric.Types.{Error, set_failed, Call, Metric}
use access_log_exporter.Metric.Act.{Act, Outcome, return, lift, ◌>>=◌, ◌>>◌}
use access_log_exporter.Metric.Set.{set_metric, set_metric_value, handle_counter_increment}
use access_log_exporter.Metric.Upstream.{
  parse_upstreams, extract_next_value, is_upstream_excluded, process_value_with_upstream,
  process_element, process_values, process_comma_delimited_values, set_metric_with_upstream,
}
use access_log_exporter.Metric.Labels.{
  get_labels_from_pool, return_labels_to_pool, process_label, process_labels_from,
}
use access_log_exporter.Metric.Parse.{
  validate_and_extract_value, wrap_error, handle_metric_value, handle_line, Parsed, release,
  proceed, parse,
}
use access_log_exporter.Metric.Valid.{IsValid, HasDecoded, IsBlank}
use access_log_exporter.Metric.SafeParse.{parse-IsValid}
use access_log_exporter.Metric.Pool.{get_labels_lem}

-- the metric with another pool
abbrev pub with_pool : Metric → List (List Bytes) → Metric
with_pool m pool = record m { labels_pool = pool }

module _ (fl : FloatOps) (m : Metric) (pool : List (List Bytes)) where
  process_labels-with_pool :
      (line : List Bytes) (labels : List Label) (i : ℕ)
      → process_labels_from (with_pool m pool) line i labels ≡ process_labels_from m line i labels
  unfolding process_labels_from process_label
  process_labels-with_pool line [] i = refl
  process_labels-with_pool line (label ∷ labels) i =
      ap (λ k. process_label m line i label >> k) (process_labels-with_pool line labels (i + 1))

  process_element-with_pool :
      (value : Bytes) (upstreams : List Bytes) (i : ℕ)
      → process_element fl (with_pool m pool) value upstreams i
        ≡ process_element fl m value upstreams i
  unfolding process_element process_value_with_upstream set_metric is_upstream_excluded
      set_metric_value
  process_element-with_pool value upstreams i = refl

  process_values-with_pool :
      (fuel : ℕ) (value : Bytes) (upstreams : List Bytes) (i : ℕ)
      → process_values fl (with_pool m pool) fuel value upstreams i
        ≡ process_values fl m fuel value upstreams i
  unfolding process_values
  process_values-with_pool zero value upstreams i = refl
  process_values-with_pool (suc fuel) value upstreams i =
      let rest = (extract_next_value value).1 in
      ap₂
        (λ (first : Act (Unit {0})) (k : Act (Unit {0})).
          first >> elim (is_empty rest) [ true ↦ return tt | false ↦ k ])
        (process_element-with_pool (extract_next_value value).0 upstreams i)
        (process_values-with_pool fuel rest upstreams (i + 1))

  set_with_upstream-with_pool :
      (line : List Bytes) (value : Bytes)
      → set_metric_with_upstream fl (with_pool m pool) line value
        ≡ set_metric_with_upstream fl m line value
  unfolding set_metric_with_upstream process_comma_delimited_values parse_upstreams
  set_with_upstream-with_pool line value =
      ap (λ (k : List Bytes → Act (Unit {0})). lift (parse_upstreams m line) >>= k)
        (fun_ext λ upstreams. process_values-with_pool (suc (length value)) value upstreams 0)

  handle_metric_value-with_pool :
      (line : List Bytes) (value : Bytes)
      → handle_metric_value fl (with_pool m pool) line value ≡ handle_metric_value fl m line value
  unfolding handle_metric_value handle_counter_increment set_metric set_metric_value
  handle_metric_value-with_pool line value = λ i. elim m.cfg.value_index [
    | none ↦ handle_counter_increment m
    | some _ ↦
        if is_empty value
        then return tt
        else if m.cfg.upstream.enabled
        then set_with_upstream-with_pool line value i
        else wrap_error (set_failed m.cfg.name value) (set_metric fl m value)
  ]

  handle_line-with_pool :
      (line : List Bytes) (value : Bytes)
      → handle_line fl (with_pool m pool) line value ≡ handle_line fl m line value
  unfolding handle_line
  handle_line-with_pool line value =
      ap₂ (λ (a b : Act (Unit {0})). a >> b) (process_labels-with_pool line m.cfg.labels 0)
        (handle_metric_value-with_pool line value)

-- what a line is seen to do: its calls and its result
abbrev pub Observed : Type 0
Observed = List Call × Result Error (Unit {0})

abbrev pub observed : Parsed → Observed
observed p = (p.calls, p.result)

unfoldable pub outcome_observed : Outcome (Unit {0}) → Observed
outcome_observed (Outcome.ok a s) = (s.calls, ok a)
outcome_observed (Outcome.err e s) = (s.calls, err e)
outcome_observed (Outcome.panic p s) = (s.calls, panic p)

pub observed-release :
    (m : Metric) (pool : List (List Bytes)) (o : Outcome (Unit {0}))
    → observed (release m pool o) ≡ outcome_observed o
unfolding release outcome_observed
observed-release m pool (Outcome.ok a s) = refl
observed-release m pool (Outcome.err e s) = refl
observed-release m pool (Outcome.panic p s) = refl

-- The same line on the same metric, with no pool: a new slice for it alone.
unfoldable pub parse_alone : FloatOps → Metric → List Bytes → Observed
unfolding parse
parse_alone fl m line = observed (parse fl (with_pool m []) 0 line)

module _ (fl : FloatOps) (m : Metric) where
  release-after :
      (pool : List (List Bytes)) (o : Outcome (Unit {0}))
      → (pool' : List (List Bytes)) × ((release m pool o).after ≡ with_pool m pool')
  unfolding release return_labels_to_pool
  release-after pool (Outcome.ok a s) = (_, refl)
  release-after pool (Outcome.err e s) = (_, refl)
  release-after pool (Outcome.panic p s) = (_, refl)

  proceed-after :
      (choice : ℕ) (line : List Bytes) (r : Result Error (Bytes × Bool))
      → (pool' : List (List Bytes)) × ((proceed fl m choice line r).after ≡ with_pool m pool')
  unfolding proceed
  proceed-after choice line (err e) = (m.labels_pool, refl)
  proceed-after choice line (panic p) = (m.labels_pool, refl)
  proceed-after choice line (ok (value, true)) = (m.labels_pool, refl)
  proceed-after choice line (ok (value, false)) = release-after _ _

  proceed-alone :
      (choice : ℕ) (line : List Bytes) (r : Result Error (Bytes × Bool))
      → All (IsBlank m.label_count) m.labels_pool
      → observed (proceed fl m choice line r) ≡ observed (proceed fl (with_pool m []) 0 line r)
  unfolding proceed get_labels_from_pool
  proceed-alone choice line (err e) h = refl
  proceed-alone choice line (panic p) h = refl
  proceed-alone choice line (ok (value, true)) h = refl
  proceed-alone choice line (ok (value, false)) h =
      let (blank, _) = get_labels_lem m choice h in
      observed-release m _ _
      ∙ ap₂
          (λ (act : Act (Unit {0})) (labels : List Bytes).
            outcome_observed (act (record { labels = labels; calls = [] })))
          (sym (handle_line-with_pool fl m [] line value)) blank
      ∙ sym (observed-release (with_pool m []) _ _)

-- A run of the metric over some lines, each with the choice that the pool makes at it.
pub run : FloatOps → Metric → List (ℕ × List Bytes) → List Observed
run fl m [] = []
run fl m ((choice, line) ∷ lines) =
    observed (parse fl m choice line) ∷ run fl (parse fl m choice line).after lines

module _ (fl : FloatOps) (m : Metric) (d : HasDecoded m.cfg) where
  validate-with_pool :
      (pool : List (List Bytes)) (line : List Bytes)
      → validate_and_extract_value (with_pool m pool) line ≡ validate_and_extract_value m line
  unfolding validate_and_extract_value
  validate-with_pool pool [] = refl
  validate-with_pool pool (first ∷ rest) = refl

  pub parse-alone :
      (pool : List (List Bytes)) (choice : ℕ) (line : List Bytes)
      → IsValid (with_pool m pool)
      → observed (parse fl (with_pool m pool) choice line) ≡ parse_alone fl m line
  unfolding parse parse_alone
  parse-alone pool choice line v =
      let checked = validate_and_extract_value (with_pool m pool) line in
      proceed-alone fl (with_pool m pool) choice line checked v.pooled
      ∙ ap (λ r. observed (proceed fl (with_pool m []) 0 line r))
          (validate-with_pool pool line ∙ sym (validate-with_pool [] line))

  pub parse-after :
      (pool : List (List Bytes)) (choice : ℕ) (line : List Bytes)
      → (pool' : List (List Bytes)) × ((parse fl (with_pool m pool) choice line).after
          ≡ with_pool m pool')
  unfolding parse
  parse-after pool choice line = proceed-after fl (with_pool m pool) choice line _

  run_from :
      (lines : List (ℕ × List Bytes)) (pool : List (List Bytes))
      → IsValid (with_pool m pool)
      → run fl (with_pool m pool) lines ≡ map (λ input. parse_alone fl m input.1) lines
  unfolding run
  run_from [] pool v = refl
  run_from ((choice, line) ∷ lines) pool v =
      let (pool', e) = parse-after pool choice line in
      let next = subst IsValid e (parse-IsValid fl (with_pool m pool) v d choice line) in
      ap₂ (λ o os. o ∷ os) (parse-alone pool choice line v)
        (ap (λ a. run fl a lines) e ∙ run_from lines pool' next)

  -- A well-formed metric with decoded replacements goes through any sequence of lines, whichever
  -- slices the pool hands out: the calls and the result of each line are those of the same line on
  -- the same metric alone with an empty pool, so neither the pool nor the lines before have an
  -- influence.
  pub run-alone :
      (lines : List (ℕ × List Bytes))
      → IsValid m
      → run fl m lines ≡ map (λ input. parse_alone fl m input.1) lines
  run-alone lines v = run_from lines m.labels_pool v
