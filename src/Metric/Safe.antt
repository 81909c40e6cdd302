-- ===== src/Metric/Safe.antt =====
-- The parts of the handling of a line in internal/metric/metric.go: fitting calls, the number of
-- label values, panics.
use access_log_exporter.Prelude.{
  ℕ, ◌+◌, ◌<◌, ◌≤◌, ◌≡◌, ◌≢◌, refl, ◌⊎◌, false, List, [], ◌∷◌, none, some, Bytes, length,
  length-set, is_empty, All, All-append, get_elem?-some, arith, leb, Returns, index,
}
use access_log_exporter.Strings.Space.{trim_space}
use access_log_exporter.Float.{Float64, FloatOps, is_negative}
use access_log_exporter.Config.Types.{Replacement, Label}
use access_log_exporter.Metric.Types.{
  Error, parse_value, Kind, counter_vec, gauge_vec, histogram_vec, Vec, Call, inc, Metric,
}
use access_log_exporter.Metric.Replace.{apply, value_replacements}
use access_log_exporter.Metric.Act.{Frame, fail, set_label, call}
use access_log_exporter.Metric.Set.{
  set_kind, increment_kind, set_metric_value, set_metric, handle_counter_increment,
  apply_math_transformations,
}
use access_log_exporter.Metric.Labels.{process_label, process_labels_from, parse_user_agent}
use access_log_exporter.Metric.Keeps.{Keeps, Keeps-bind, Keeps-lift_bind, Keeps-if, Keeps-option}
use access_log_exporter.Metric.Valid.{IsDecoded, Fits}

pub index-Returns {ℓ} :
    {A : Type ℓ} (xs : List A) (i : ℕ) → i < length xs → Returns (index {E = Error} xs i)
index-Returns xs i h = let (a, e) = get_elem?-some xs i h in rw (e, index) tt

apply-Returns : (r : Replacement) (value : Bytes) → IsDecoded r → Returns (apply r value)
unfolding apply
apply-Returns r value h = ground arith

pub value_replacements-Returns :
    (rs : List Replacement) (value : Bytes)
    → All IsDecoded rs
    → Returns (value_replacements rs value)
unfolding value_replacements
value_replacements-Returns [] value h = tt
value_replacements-Returns (r ∷ rs) value (h, hs) =
    ground (arith, apply-Returns r value h, value_replacements-Returns rs value hs)

module _ (vec : Vec) where
  abbrev pub FrameFits : Frame → Type 0
  FrameFits s = (length s.labels ≡ length vec.label_keys) × All (Fits vec) s.calls

  pub Keeps-set_label :
      (i : ℕ) (value : Bytes) → i < length vec.label_keys → Keeps FrameFits (set_label i value)
  Keeps-set_label i value h s (n, fits) = ground (arith, length-set s.labels i value)

  Keeps-call :
      (make : List Bytes → Call)
      → ((labels : List Bytes) → length labels ≡ length vec.label_keys → Fits vec (make labels))
      → Keeps FrameFits (call make)
  Keeps-call make h s (n, fits) = (n, All-append _ s.calls _ fits (h s.labels n, tt))

  Keeps-set_kind :
      (kind : Kind) (value : Float64) → vec.kind ≡ kind → Keeps FrameFits (set_kind kind value)
  unfolding set_kind
  Keeps-set_kind counter_vec value k =
      Keeps-if FrameFits (is_negative value) _ _ (λ _ s p. p)
        (λ e. Keeps-call _ (λ labels n. rw k (n, e)))
  Keeps-set_kind gauge_vec value k = Keeps-call _ (λ labels n. rw k n)
  Keeps-set_kind histogram_vec value k = Keeps-call _ (λ labels n. rw k n)

  Keeps-increment_kind : (kind : Kind) → vec.kind ≡ kind → Keeps FrameFits (increment_kind kind)
  unfolding increment_kind
  Keeps-increment_kind counter_vec k s p = Keeps-call inc (λ labels n. rw k n) s p
  Keeps-increment_kind _ k s p = p

  module _ (m : Metric) (built : m.metric ≡ some vec) where
    Keeps-set_metric_value : (value : Float64) → Keeps FrameFits (set_metric_value m value)
    unfolding set_metric_value
    Keeps-set_metric_value value s p =
        rw (built, set_metric_value) (Keeps-set_kind vec.kind value refl s p)

    pub Keeps-handle_counter_increment : Keeps FrameFits (handle_counter_increment m)
    unfolding handle_counter_increment
    Keeps-handle_counter_increment s p =
        rw (built, handle_counter_increment) (Keeps-increment_kind vec.kind refl s p)

    pub Keeps-set_metric : (fl : FloatOps) (text : Bytes) → Keeps FrameFits (set_metric fl m text)
    unfolding set_metric
    Keeps-set_metric fl text =
        Keeps-if FrameFits (is_empty (trim_space text)) _ _ (λ _ s p. p)
          (λ _.
            Keeps-option FrameFits (fl.parse_float (trim_space text))
              (fail (parse_value (trim_space text)))
              (λ x. set_metric_value m (apply_math_transformations fl m.cfg.math x)) (λ s p. p)
              (λ x. Keeps-set_metric_value _))

parse_user_agent-Returns :
    (m : Metric) (label : Label) (value : Bytes)
    → (label.user_agent ≡ false) ⊎ (m.ua ≢ none)
    → Returns (parse_user_agent m label value)
unfolding parse_user_agent
parse_user_agent-Returns m label value h = ground arith

-- An invariant that the writes of labels keep is kept by the loop over the labels.
module _ (m : Metric) (line : List Bytes) (P : Frame → Type 0) (n : ℕ)
    (writes : (i : ℕ) (value : Bytes) → i < n → Keeps P (set_label i value)) where
  Keeps-process_label :
      (i : ℕ) (label : Label)
      → i < n
      → (label.user_agent ≡ false) ⊎ (m.ua ≢ none)
      → All IsDecoded label.replacements
      → Keeps P (process_label m line i label)
  unfolding process_label
  Keeps-process_label i label fits parses decoded =
      Keeps-if P (leb (length line) label.line_index) _ _ (λ _ s p. p)
        (λ inside.
          Keeps-lift_bind P _ _ (index-Returns line label.line_index (ground arith)) (λ field _.
            Keeps-lift_bind P _ _ (parse_user_agent-Returns m label field parses) (λ value _.
              Keeps-lift_bind P _ _ (value_replacements-Returns label.replacements value decoded)
                (λ replaced _. writes i replaced fits))))

  pub Keeps-process_labels_from :
      (labels : List Label) (i : ℕ)
      → i + length labels ≤ n
      → All (λ (label : Label). (label.user_agent ≡ false) ⊎ (m.ua ≢ none)) labels
      → All (λ (label : Label). All IsDecoded label.replacements) labels
      → Keeps P (process_labels_from m line i labels)
  unfolding process_labels_from
  Keeps-process_labels_from [] i fits _ _ = λ s p. p
  Keeps-process_labels_from (label ∷ labels) i fits (h, hs) (d, ds) =
      Keeps-bind P _ _ (Keeps-process_label i label (omega arith) h d)
        (λ _. Keeps-process_labels_from labels (i + 1) (omega arith) hs ds)
