-- ===== src/Metric/Lines.antt =====
-- What a line does to a metric of one value: `Parse` of internal/metric/metric.go, branch by
-- branch.
use access_log_exporter.Prelude.{
  ℕ, ◌+◌, ◌≤◌, ◌≡◌, ◌≢◌, refl, sym, ap, ◌∙◌, inl, inr, false, List, [], ◌∷◌, ◌++◌, none, some,
  Bytes, length, length-replicate, replicate, ne→is_empty, arith, if◌then◌else◌, Bool-cases, ok,
  err,
}
use access_log_exporter.Strings.Space.{trim_space}
use access_log_exporter.Float.{Float64, FloatOps, is_negative}
use access_log_exporter.Metric.Types.{
  Error, set_failed, negative_counter, Kind, counter_vec, gauge_vec, histogram_vec, inc, add, set,
  observe, Metric,
}
use access_log_exporter.Metric.New.{has_upstream_label}
use access_log_exporter.Metric.Act.{Frame, Outcome, then_ok, then_err}
use access_log_exporter.Metric.Set.{
  set_kind, increment_kind, set_metric_value, set_metric, handle_counter_increment,
  apply_math_transformations,
}
use access_log_exporter.Metric.Labels.{process_labels_from}
use access_log_exporter.Metric.Parse.{
  extract_value, validate_and_extract_value, handle_metric_value, handle_line, wrap_error, proceed,
  parse,
}
use access_log_exporter.Metric.Writes.{write_from, write_from-replicate}
use access_log_exporter.Metric.Valid.{IsValid}
use access_log_exporter.Metric.Pool.{get_labels_lem}
use access_log_exporter.Metric.History.{Observed, observed, outcome_observed, observed-release}
use access_log_exporter.Metric.LabelValues.{
  length-label_values, label_values, process_labels_ok, process_labels_err,
}

-- the label values of a line: those of the labels, and the blank one of the upstream
abbrev pub with_upstream_slot : Metric → List Bytes → List Bytes
with_upstream_slot m values = values ++ (if has_upstream_label m.cfg then [] ∷ [] else [])

-- The line has a first field that is not empty.
abbrev pub IsStarted : List Bytes → Type 0
IsStarted [] = ⊥
IsStarted (first ∷ rest) = first ≢ []

pub validate_started :
    (m : Metric) (line : List Bytes)
    → IsStarted line
    → validate_and_extract_value m line ≡ extract_value m line
unfolding validate_and_extract_value
validate_started m [] h = absurd h
validate_started m (first ∷ rest) h = rw (ne→is_empty first h)

-- what a vector of the kind does with a number, and the error of a counter
abbrev pub sample : Metric → Bytes → Kind → List Bytes → Float64 → Observed
sample m value counter_vec labels x =
    if is_negative x
    then ([], err (set_failed m.cfg.name value (negative_counter x)))
    else (add labels x ∷ [], ok tt)
sample m value gauge_vec labels x = (set labels x ∷ [], ok tt)
sample m value histogram_vec labels x = (observe labels x ∷ [], ok tt)

module _ (fl : FloatOps) (m : Metric) (v : IsValid m) (choice : ℕ) (line : List Bytes) where
  blank_frame : Frame
  blank_frame = record { labels = replicate m.label_count []; calls = [] }

  -- the line is neither skipped nor refused, and this is its value
  abbrev IsRead : Bytes → Type 0
  IsRead value = validate_and_extract_value m line ≡ ok (value, false)

  handled :
      (value : Bytes)
      → IsRead value
      → observed (parse fl m choice line)
        ≡ outcome_observed (handle_line fl m line value blank_frame)
  unfolding parse proceed blank_frame
  handled value h =
      ap (λ r. observed (proceed fl m choice line r)) h
      ∙ observed-release m _ _
      ∙ ap
          (λ labels.
            outcome_observed (handle_line fl m line value (record { labels = labels; calls = [] })))
          (get_labels_lem m choice v.pooled).0

  fits : 0 + length m.cfg.labels ≤ length blank_frame.labels
  unfolding blank_frame
  fits = rw length-replicate (ground (arith, v.counted))

  written :
      (values : List Bytes)
      → label_values m line m.cfg.labels ≡ ok values
      → write_from 0 values blank_frame.labels ≡ with_upstream_slot m values
  unfolding blank_frame
  written values h = elim (Bool-cases (has_upstream_label m.cfg)) [
    | inl e ↦
        let n : m.label_count ≡ length values + 1 =
          v.counted
          ∙ rw e (ap (λ k. k + 1) (sym (length-label_values m line m.cfg.labels values h))) in
        rw (n, e) (write_from-replicate values [] 1)
    | inr e ↦
        let n : m.label_count ≡ length values + 0 =
          v.counted ∙ rw e (omega (arith, length-label_values m line m.cfg.labels values h)) in
        rw (n, e) (write_from-replicate values [] 0)
  ]

  -- On a well-formed metric, a line that is read, and of which the value of some label cannot be
  -- taken, makes no call and returns the error of the first such label.
  pub parse_label_error :
      (value : Bytes) (e : Error)
      → IsRead value
      → label_values m line m.cfg.labels ≡ err e
      → observed (parse fl m choice line) ≡ ([], err e)
  unfolding handle_line outcome_observed blank_frame
  parse_label_error value e read h =
      let (labels, stopped) = process_labels_err m line m.cfg.labels 0 e blank_frame h fits in
      handled value read
      ∙ ap outcome_observed (
          then_err (process_labels_from m line 0 m.cfg.labels) (handle_metric_value fl m line value)
            blank_frame (record { labels = labels; calls = [] }) stopped)

  pub labelled :
      (value : Bytes) (values : List Bytes)
      → IsRead value
      → label_values m line m.cfg.labels ≡ ok values
      → observed (parse fl m choice line)
        ≡ outcome_observed (
            handle_metric_value fl m line value
              (record { labels = with_upstream_slot m values; calls = [] }))
  unfolding handle_line blank_frame
  labelled value values read h =
      handled value read
      ∙ ap outcome_observed (
          then_ok (process_labels_from m line 0 m.cfg.labels) (handle_metric_value fl m line value)
            blank_frame (record { labels = with_upstream_slot m values; calls = [] })
            (process_labels_ok m line m.cfg.labels 0 values blank_frame h fits
              ∙ ap (λ labels. Outcome.ok tt (record { labels = labels; calls = [] }))
                  (written values h)))

  increment_lem :
      (s : Frame)
      → m.cfg.value_index ≡ none
      → handle_counter_increment m s
        ≡ Outcome.ok tt (record s { calls = s.calls ++ inc s.labels ∷ [] })
  unfolding handle_counter_increment increment_kind
  increment_lem s e = ground (arith, v.built, v.increments)

  increments :
      (s : Frame)
      → m.cfg.value_index ≡ none
      → handle_metric_value fl m line [] s
        ≡ Outcome.ok tt (record s { calls = s.calls ++ inc s.labels ∷ [] })
  unfolding handle_metric_value
  increments s e = rw (e, handle_metric_value) (increment_lem s e)

  -- A well-formed metric without a value index is incremented just once by each line whose first
  -- field is not empty and whose label values can be taken: under these label values, in their
  -- order, and an empty one for the upstream if the metric has that label; the result is no error.
  pub parse_increments :
      (values : List Bytes)
      → m.cfg.value_index ≡ none
      → IsStarted line
      → label_values m line m.cfg.labels ≡ ok values
      → observed (parse fl m choice line) ≡ (inc (with_upstream_slot m values) ∷ [], ok tt)
  unfolding outcome_observed extract_value
  parse_increments values e started h =
      labelled [] values (validate_started m line started ∙ rw (e, extract_value)) h
      ∙ ap outcome_observed (increments _ e)

  set_kind_lem :
      (kind : Kind) (value : Bytes) (labels : List Bytes) (x : Float64)
      → outcome_observed (
          wrap_error
            (set_failed m.cfg.name value)
            (set_kind kind x)
            (record { labels = labels; calls = [] }))
        ≡ sample m value kind labels x
  unfolding set_kind outcome_observed
  set_kind_lem counter_vec value labels x = ground arith
  set_kind_lem gauge_vec value labels x = refl
  set_kind_lem histogram_vec value labels x = refl

  pub set_metric_lem :
      (text : Bytes) (x : Float64) (s : Frame)
      → trim_space text ≢ []
      → fl.parse_float (trim_space text) ≡ some x
      → set_metric fl m text s ≡ set_kind v.vec.kind (apply_math_transformations fl m.cfg.math x) s
  unfolding set_metric set_metric_value
  set_metric_lem text x s h e =
      rw (ne→is_empty (trim_space text) h, e) (rw (v.built, set_metric_value) refl)

  recorded :
      (value : Bytes) (s : Frame)
      → m.cfg.value_index ≢ none
      → m.cfg.upstream.enabled ≡ false
      → trim_space value ≢ []
      → handle_metric_value fl m line value s
        ≡ wrap_error (set_failed m.cfg.name value) (set_metric fl m value) s
  unfolding handle_metric_value
  recorded [] s valued plain full = absurd (full (unfold trim_space in refl))
  recorded (c ∷ value) s valued plain full = ground arith

  -- On a well-formed metric with a value index and without upstreams, a line that is read, whose
  -- label values can be taken and whose value, trimmed, is a number, makes just one call under these
  -- label values: the number, scaled as configured, is added to a counter, set on a gauge or
  -- observed by a histogram; a negative one makes no call on a counter and is the error of the
  -- result.
  pub parse_records :
      (value : Bytes) (values : List Bytes) (x : Float64)
      → m.cfg.value_index ≢ none
      → m.cfg.upstream.enabled ≡ false
      → IsRead value
      → label_values m line m.cfg.labels ≡ ok values
      → trim_space value ≢ []
      → fl.parse_float (trim_space value) ≡ some x
      → observed (parse fl m choice line)
        ≡ sample m value v.vec.kind
            (with_upstream_slot m values)
            (apply_math_transformations fl m.cfg.math x)
  unfolding handle_metric_value
  parse_records value values x valued plain read h full number =
      labelled value values read h
      ∙ ap outcome_observed (recorded value _ valued plain full)
      ∙ ap (λ o. outcome_observed (wrap_error (set_failed m.cfg.name value) (λ _. o) blank_frame))
          (set_metric_lem value x _ full number)
      ∙ set_kind_lem v.vec.kind value (with_upstream_slot m values)
          (apply_math_transformations fl m.cfg.math x)
