-- ===== src/Metric/Included.antt =====
-- The excluded upstreams of internal/metric/metric.go, in the handling of a line.
use access_log_exporter.Prelude.{
  ℕ, ◌<◌, ◌≡◌, ◌≢◌, Bool, true, false, List, none, Bytes, length, length-replicate, length-set,
  is_empty, All, arith, Result, ok, err, panic,
}
use access_log_exporter.Float.{FloatOps}
use access_log_exporter.Metric.Types.{Error, Metric}
use access_log_exporter.Metric.Act.{Outcome, set_label}
use access_log_exporter.Metric.Set.{handle_counter_increment}
use access_log_exporter.Metric.Labels.{get_labels_from_pool}
use access_log_exporter.Metric.Parse.{
  validate_and_extract_value, handle_metric_value, handle_line, release, proceed, parse,
}
use access_log_exporter.Metric.Keeps.{Ensures, Keeps, Keeps-bind, Keeps-if, Keeps-some}
use access_log_exporter.Metric.Valid.{HasDecoded, IsValid}
use access_log_exporter.Metric.Safe.{Keeps-process_labels_from}
use access_log_exporter.Metric.Pool.{get_labels_lem}
use access_log_exporter.Metric.Excluded.{labels_of, IsIncluded, AllIncluded, Keeps-with_upstream}

-- the metrics whose samples carry their upstream
pub record IsPerUpstream (m : Metric) : Type 0 where
  pub enabled : m.cfg.upstream.enabled ≡ true
  pub labelled : m.cfg.upstream.label ≡ true
  pub valued : m.cfg.value_index ≢ none

module _ (fl : FloatOps) (m : Metric) (v : IsValid m) (d : HasDecoded m.cfg)
    (u : IsPerUpstream m) where
  Keeps-write :
      (i : ℕ) (value : Bytes) → i < length m.cfg.labels → Keeps (AllIncluded m) (set_label i value)
  Keeps-write i value h s (room, fits) = ground (arith, length-set s.labels i value)

  Keeps-handle_metric_value :
      (line : List Bytes) (value : Bytes)
      → Keeps (AllIncluded m) (handle_metric_value fl m line value)
  unfolding handle_metric_value
  Keeps-handle_metric_value line value =
      Keeps-some (AllIncluded m) m.cfg.value_index (handle_counter_increment m) _ u.valued (λ _.
        Keeps-if (AllIncluded m) (is_empty value) _ _ (λ _ s p. p)
          (λ _.
            Keeps-if (AllIncluded m) m.cfg.upstream.enabled _ _
              (λ _. Keeps-with_upstream m fl u.labelled line value)
              (λ off. absurd (ground (arith, u.enabled)))))

  Keeps-handle_line :
      (line : List Bytes) (value : Bytes) → Keeps (AllIncluded m) (handle_line fl m line value)
  unfolding handle_line
  Keeps-handle_line line value =
      Keeps-bind (AllIncluded m) _ _
        (Keeps-process_labels_from m line (AllIncluded m) (length m.cfg.labels) Keeps-write
          m.cfg.labels 0 (omega arith) v.parses d.of_labels)
        (λ _. Keeps-handle_metric_value line value)

  release-IsIncluded :
      (pool : List (List Bytes)) (o : Outcome (Unit {0}))
      → Ensures (AllIncluded m) o
      → All (λ c. IsIncluded m (labels_of c)) (release m pool o).calls
  unfolding release
  release-IsIncluded pool (Outcome.ok a s) h = h.1
  release-IsIncluded pool (Outcome.err e s) h = h.1
  release-IsIncluded pool (Outcome.panic p s) h = absurd h

  room : (choice : ℕ) → length m.cfg.labels < length (get_labels_from_pool m choice).0
  room choice =
      let (blank, _) = get_labels_lem m choice v.pooled in
      rw (blank, length-replicate) (ground (arith, v.counted, u.enabled, u.labelled))

  proceed-IsIncluded :
      (choice : ℕ) (line : List Bytes) (r : Result Error (Bytes × Bool))
      → All (λ c. IsIncluded m (labels_of c)) (proceed fl m choice line r).calls
  unfolding proceed
  proceed-IsIncluded choice line (err e) = tt
  proceed-IsIncluded choice line (panic p) = tt
  proceed-IsIncluded choice line (ok (value, true)) = tt
  proceed-IsIncluded choice line (ok (value, false)) =
      release-IsIncluded _ _ (Keeps-handle_line line value _ (room choice, tt))

  -- For a well-formed metric with decoded replacements, a value, and samples labelled by their
  -- upstream, no line makes a call whose upstream label is one of the excluded upstreams.
  pub parse-IsIncluded :
      (choice : ℕ) (line : List Bytes)
      → All (λ c. IsIncluded m (labels_of c)) (parse fl m choice line).calls
  unfolding parse
  parse-IsIncluded choice line = proceed-IsIncluded choice line (validate_and_extract_value m line)
