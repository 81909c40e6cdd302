-- ===== src/Metric/UpstreamLines.antt =====
-- `Parse` of internal/metric/metric.go on a line with several values, for a metric that labels its
-- samples by their upstream.
use access_log_exporter.Prelude.{
  ℕ, ◌≡◌, ◌≢◌, refl, ap, ◌∙◌, true, false, List, [], ◌∷◌, ◌++◌, none, Bytes, arith, Result,
}
use access_log_exporter.Strings.Split.{split}
use access_log_exporter.Float.{FloatOps}
use access_log_exporter.Metric.Types.{Call, Metric}
use access_log_exporter.Metric.Act.{Frame, Act}
use access_log_exporter.Metric.Upstream.{parse_upstreams, set_metric_with_upstream}
use access_log_exporter.Metric.Parse.{validate_and_extract_value, handle_metric_value, parse}
use access_log_exporter.Metric.Valid.{IsValid}
use access_log_exporter.Metric.History.{observed, outcome_observed}
use access_log_exporter.Metric.LabelValues.{label_values, length-label_values}
use access_log_exporter.Metric.Lines.{with_upstream_slot, labelled}
use access_log_exporter.Metric.Values.{process_each, elements, process_comma-each}
use access_log_exporter.Metric.PerUpstream.{Records, frame, each-Records}

module _ (fl : FloatOps) (m : Metric) (v : IsValid m) (choice : ℕ) (line : List Bytes) where
  handle_upstream :
      (value : Bytes) (s : Frame)
      → m.cfg.value_index ≢ none
      → m.cfg.upstream.enabled ≡ true
      → value ≢ []
      → handle_metric_value fl m line value s ≡ set_metric_with_upstream fl m line value s
  unfolding handle_metric_value
  handle_upstream [] s valued on full = absurd (full refl)
  handle_upstream (c ∷ value) s valued on full = ground arith

  with_upstreams :
      (value : Bytes) (upstreams : List Bytes) (s : Frame)
      → parse_upstreams m line ≡ Result.ok upstreams
      → set_metric_with_upstream fl m line value s
        ≡ process_each fl m upstreams 0 (elements (split value b',')) s
  unfolding set_metric_with_upstream
  with_upstreams value upstreams s e =
      rw (e, set_metric_with_upstream)
        (ap (λ (act : Act (Unit {0})). act s) (process_comma-each fl m upstreams value))

  slot_there :
      (values : List Bytes)
      → m.cfg.upstream.enabled ≡ true
      → m.cfg.upstream.label ≡ true
      → with_upstream_slot m values ≡ values ++ [] ∷ []
  slot_there values on label = rw (on, label) refl

  -- For a well-formed metric with a value index and with samples labelled by their upstream, and for
  -- a line that is read, has a value that is not empty, and has its label values and upstreams,
  -- where each part of the value that is neither "-" nor blank nor of an excluded upstream is a
  -- number, and not negative for a counter: the line makes just one call for each such part, in
  -- their order, with the number scaled as configured, under the label values and the upstream at
  -- the position of the part, or the last upstream if there are fewer; the result is no error.
  pub parse-Records :
      (value : Bytes) (values upstreams : List Bytes) (calls : List Call)
      → m.cfg.value_index ≢ none
      → m.cfg.upstream.enabled ≡ true
      → m.cfg.upstream.label ≡ true
      → validate_and_extract_value m line ≡ Result.ok (value, false)
      → value ≢ []
      → label_values m line m.cfg.labels ≡ Result.ok values
      → parse_upstreams m line ≡ Result.ok upstreams
      → Records fl m v upstreams values 0 (elements (split value b',')) calls
      → observed (parse fl m choice line) ≡ (calls, Result.ok tt)
  unfolding outcome_observed frame
  parse-Records value values upstreams calls valued on label read full taken found r =
      let (last, e) =
        each-Records fl m v upstreams values label
          (length-label_values m line m.cfg.labels values taken) r [] [] in
      labelled fl m v choice line value values read taken
      ∙ ap
          (λ labels.
            outcome_observed
              (handle_metric_value fl m line value (record { labels = labels; calls = [] })))
          (slot_there values on label)
      ∙ ap outcome_observed
          (handle_upstream value _ valued on full ∙ with_upstreams value upstreams _ found ∙ e)
