-- ===== src/Metric/SafeParse.antt =====
-- `Parse` of internal/metric/metric.go on a well-formed metric.
use access_log_exporter.Prelude.{
  ℕ, ◌≡◌, sym, ap, ◌∙◌, inl, inr, Bool, true, false, List, [], ◌∷◌, Bytes, length, replicate,
  length-replicate, is_empty, get_elem?, All, Option-cases, arith, Result, ok, err, panic, Returns,
}
use access_log_exporter.Float.{FloatOps}
use access_log_exporter.Metric.Types.{Error, set_failed, Metric}
use access_log_exporter.Metric.Act.{Act, Frame, Outcome}
use access_log_exporter.Metric.Set.{set_metric, handle_counter_increment}
use access_log_exporter.Metric.Labels.{get_labels_from_pool, return_labels_to_pool}
use access_log_exporter.Metric.Parse.{
  replace_value, extract_at, extract_value, validate_and_extract_value, wrap_error,
  handle_metric_value, handle_line, Parsed, release, proceed, parse,
}
use access_log_exporter.Metric.Pool.{map-blank, get_labels_lem}
use access_log_exporter.Metric.Keeps.{Ensures, Keeps, Keeps-bind, Keeps-if, Keeps-option}
use access_log_exporter.Metric.Valid.{HasDecoded, IsValid, IsBlank, Fits}
use access_log_exporter.Metric.Safe.{
  FrameFits, Keeps-set_label, index-Returns, value_replacements-Returns, Keeps-set_metric,
  Keeps-handle_counter_increment, Keeps-process_labels_from,
}
use access_log_exporter.Metric.SafeUpstream.{Keeps-set_metric_with_upstream}

module _ (m : Metric) (d : HasDecoded m.cfg) where
  replace_value-Returns : (value : Bytes) → Returns (replace_value m value)
  unfolding replace_value
  replace_value-Returns value = elim (Option-cases m.cfg.replacements) [
    | inl e ↦ rw (e, replace_value) tt
    | inr (rs, e) ↦ ground (arith, value_replacements-Returns rs value (rw e at d.of_value))
  ]

  extract_at-Returns : (line : List Bytes) (i : ℕ) → Returns (extract_at m line i)
  unfolding extract_at
  extract_at-Returns line i = elim (Option-cases (get_elem? line i)) [
    | inl e ↦ ground (arith, index-Returns line i)
    | inr (value, e) ↦ ground (arith, replace_value-Returns value)
  ]

  extract_value-Returns : (line : List Bytes) → Returns (extract_value m line)
  unfolding extract_value
  extract_value-Returns line = elim (Option-cases m.cfg.value_index) [
    | inl e ↦ rw (e, extract_value) tt
    | inr (i, e) ↦ rw (e, extract_value) (extract_at-Returns line i)
  ]

  pub validate-Returns : (line : List Bytes) → Returns (validate_and_extract_value m line)
  unfolding validate_and_extract_value
  validate-Returns [] = tt
  validate-Returns (first ∷ rest) = ground (arith, extract_value-Returns (first ∷ rest))

Ensures-wrap :
    {A : Type 0} (P : Frame → Type 0) (wrap : Error → Error) (o : Outcome A)
    → Ensures P o
    → Ensures P (wrap_error wrap (λ _. o) (record { labels = []; calls = [] }))
Ensures-wrap P wrap (Outcome.ok a s) h = h
Ensures-wrap P wrap (Outcome.err e s) h = h
Ensures-wrap P wrap (Outcome.panic p s) h = h

Keeps-wrap_error :
    {A : Type 0} (P : Frame → Type 0) (wrap : Error → Error) (act : Act A)
    → Keeps P act
    → Keeps P (wrap_error wrap act)
Keeps-wrap_error P wrap act h s p = Ensures-wrap P wrap (act s) (h s p)

module _ (fl : FloatOps) (m : Metric) (v : IsValid m) (d : HasDecoded m.cfg) where
  Keeps-handle_metric_value :
      (line : List Bytes) (value : Bytes)
      → Keeps (FrameFits v.vec) (handle_metric_value fl m line value)
  unfolding handle_metric_value
  Keeps-handle_metric_value line value =
      Keeps-option (FrameFits v.vec) m.cfg.value_index (handle_counter_increment m) _
        (Keeps-handle_counter_increment v.vec m v.built)
        (λ _.
          Keeps-if (FrameFits v.vec) (is_empty value) _ _ (λ _ s p. p)
            (λ _.
              Keeps-if (FrameFits v.vec) m.cfg.upstream.enabled _ _
                (λ e. Keeps-set_metric_with_upstream fl m v e line value)
                (λ _.
                  Keeps-wrap_error (FrameFits v.vec) (set_failed m.cfg.name value)
                    (set_metric fl m value) (Keeps-set_metric v.vec m v.built fl value))))

  Keeps-handle_line :
      (line : List Bytes) (value : Bytes) → Keeps (FrameFits v.vec) (handle_line fl m line value)
  unfolding handle_line
  Keeps-handle_line line value =
      Keeps-bind (FrameFits v.vec) _ _
        (Keeps-process_labels_from m line (FrameFits v.vec) (length v.vec.label_keys)
          (Keeps-set_label v.vec) m.cfg.labels 0 (ground (arith, v.keyed, v.counted)) v.parses
          d.of_labels)
        (λ _. Keeps-handle_metric_value line value)

module _ (fl : FloatOps) (m : Metric) (v : IsValid m) (d : HasDecoded m.cfg) where
  -- what is to hold of the outcome of a line
  record IsSafe (p : Parsed) : Type 0 where
    returns : Returns p.result
    fits : All (Fits v.vec) p.calls
    valid : IsValid p.after

  refill-IsValid :
      (labels : List Bytes) (pool : List (List Bytes))
      → length labels ≡ length v.vec.label_keys
      → All (IsBlank m.label_count) pool
      → IsValid (return_labels_to_pool m labels pool)
  unfolding return_labels_to_pool
  refill-IsValid labels pool n h = record {
    vec = v.vec;
    built = v.built;
    counted = v.counted;
    keyed = v.keyed;
    pooled = (map-blank labels ∙ ap (λ k. replicate k []) (n ∙ v.keyed), h);
    parses = v.parses;
    increments = v.increments;
  }

  release-IsSafe :
      (pool : List (List Bytes)) (o : Outcome (Unit {0}))
      → All (IsBlank m.label_count) pool
      → Ensures (FrameFits v.vec) o
      → IsSafe (release m pool o)
  unfolding release
  release-IsSafe pool (Outcome.ok a s) h (n, fits) = record {
    returns = tt;
    fits = fits;
    valid = refill-IsValid s.labels pool n h;
  }
  release-IsSafe pool (Outcome.err e s) h (n, fits) = record {
    returns = tt;
    fits = fits;
    valid = refill-IsValid s.labels pool n h;
  }
  release-IsSafe pool (Outcome.panic p s) h e = absurd e

  proceed-IsSafe :
      (choice : ℕ) (line : List Bytes) (r : Result Error (Bytes × Bool))
      → Returns r
      → IsSafe (proceed fl m choice line r)
  unfolding proceed
  proceed-IsSafe choice line (err e) h = record { returns = tt; fits = tt; valid = v }
  proceed-IsSafe choice line (panic p) h = absurd h
  proceed-IsSafe choice line (ok (value, true)) h = record { returns = tt; fits = tt; valid = v }
  proceed-IsSafe choice line (ok (value, false)) h =
      let (blank, pooled) = get_labels_lem m choice v.pooled in
      release-IsSafe (get_labels_from_pool m choice).1 _ pooled (
        Keeps-handle_line fl m v d line value _
          (ap length blank ∙ length-replicate m.label_count [] ∙ sym v.keyed, tt))

  parse-IsSafe : (choice : ℕ) (line : List Bytes) → IsSafe (parse fl m choice line)
  unfolding parse
  parse-IsSafe choice line =
      proceed-IsSafe choice line (validate_and_extract_value m line) (validate-Returns m d line)

  -- A well-formed metric whose replacements were decoded handles any line, with any choice of the
  -- slice pool, without a panic: no index is out of range, no pointer is nil, and the loop over
  -- comma-separated values ends. The methods of the Prometheus vector are not part of this: they are
  -- recorded as calls.
  pub parse-Returns : (choice : ℕ) (line : List Bytes) → Returns (parse fl m choice line).result
  parse-Returns choice line = (parse-IsSafe choice line).returns

  -- Every call that a line makes on a well-formed metric with decoded replacements fits the metric's
  -- vector: it is a method of the vector's kind, it passes one value for each label key, and no
  -- counter gets a negative number.
  pub parse-Fits :
      (choice : ℕ) (line : List Bytes) → All (Fits v.vec) (parse fl m choice line).calls
  parse-Fits choice line = (parse-IsSafe choice line).fits

  -- A well-formed metric with decoded replacements is well-formed again after any line: its vector
  -- is there, and every slice in its pool has the right length and only empty texts, so that no
  -- label value of one line is left for the next.
  pub parse-IsValid : (choice : ℕ) (line : List Bytes) → IsValid (parse fl m choice line).after
  parse-IsValid choice line = (parse-IsSafe choice line).valid
