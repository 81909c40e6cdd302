-- ===== src/Metric/Excluded.antt =====
-- The excluded upstreams of internal/metric/metric.go, in the loop over the values.
use mathlib.Core.List.{cons-ne-nil}
use access_log_exporter.Prelude.{
  ℕ, zero, suc, ◌+◌, ◌<◌, ◌≡◌, ◌≢◌, refl, sym, true, false, not, ◌&&◌, List, [], ◌∷◌, map, subst,
  inl, inr, some, Bytes, str_eq, codes, contains_str, length, length-set, set, get_elem?, is_empty,
  All, All-append, arith, Option-cases, is_empty→eq, Result,
}
use access_log_exporter.Strings.Split.{split}
use access_log_exporter.Strings.Laws.{split-ne-nil}
use access_log_exporter.Strings.Space.{trim_space}
use access_log_exporter.Float.{Float64, FloatOps, is_negative}
use access_log_exporter.Metric.Types.{
  Kind, counter_vec, gauge_vec, histogram_vec, parse_value, Call, inc, add, observe, Metric,
}
use access_log_exporter.Metric.Types
use access_log_exporter.Metric.Act.{Frame, Outcome, fail, call, ◌>>=◌, ◌>>◌}
use access_log_exporter.Metric.Set.{
  set_kind, set_metric_value, set_metric, apply_math_transformations,
}
use access_log_exporter.Metric.Upstream.{
  is_upstream_excluded, add_upstream_label, process_value_with_upstream, process_element,
  set_metric_with_upstream, parse_upstreams,
}
use access_log_exporter.Metric.Keeps.{
  Ensures, Keeps, Keeps-bind, Keeps-lift_bind, Keeps-if, Keeps-elim, Keeps-option,
}
use access_log_exporter.Metric.SafeUpstream.{get_upstream-Returns, parse_upstreams-Returns}
use access_log_exporter.Metric.Values.{process_each, elements, process_comma-each}

abbrev pub labels_of : Call → List Bytes
labels_of (inc labels) = labels
labels_of (add labels value) = labels
labels_of (Types.set labels value) = labels
labels_of (observe labels value) = labels

get_elem?-set_self :
    (xs : List Bytes) (i : ℕ) (v : Bytes) → i < length xs → get_elem? (set xs i v) i ≡ some v
get_elem?-set_self [] i v h = elim h [ ]
get_elem?-set_self (x ∷ xs) zero v h = refl
get_elem?-set_self (x ∷ xs) (suc i) v h = get_elem?-set_self xs i v (omega arith)

map-ne-nil : (parts : List Bytes) → parts ≢ [] → map trim_space parts ≢ []
map-ne-nil [] h = absurd (h refl)
map-ne-nil (p ∷ ps) h = cons-ne-nil _ _

module _ (m : Metric) where
  -- The label behind the configured ones holds an upstream that is not excluded.
  abbrev pub IsIncluded : List Bytes → Type 0
  IsIncluded labels =
      (upstream : Bytes) × (get_elem? labels (length m.cfg.labels) ≡ some upstream)
      × (contains_str m.cfg.upstream.excludes upstream ≡ false)

  abbrev pub AllIncluded : Frame → Type 0
  AllIncluded s =
      (length m.cfg.labels < length s.labels) × All (λ c. IsIncluded (labels_of c)) s.calls

  abbrev Included : Frame → Type 0
  Included s = AllIncluded s × IsIncluded s.labels

  Keeps-call :
      (make : List Bytes → Call)
      → ((labels : List Bytes) → labels_of (make labels) ≡ labels)
      → Keeps Included (call make)
  Keeps-call make h s ((room, fits), here) =
      ((room, All-append _ s.calls _ fits (rw (h s.labels) here, tt)), here)

  Keeps-set_kind : (kind : Kind) (value : Float64) → Keeps Included (set_kind kind value)
  unfolding set_kind
  Keeps-set_kind counter_vec value =
      Keeps-if Included (is_negative value) _ _ (λ _ s p. p) (λ _. Keeps-call _ (λ _. refl))
  Keeps-set_kind gauge_vec value = Keeps-call _ (λ _. refl)
  Keeps-set_kind histogram_vec value = Keeps-call _ (λ _. refl)

  Keeps-set_metric_value : (value : Float64) → Keeps Included (set_metric_value m value)
  unfolding set_metric_value
  Keeps-set_metric_value value =
      Keeps-option Included m.metric (fail (Types.unsupported_type m.cfg.type))
        (λ vec. set_kind vec.kind value) (λ s p. p) (λ vec. Keeps-set_kind vec.kind value)

  Keeps-set_metric : (fl : FloatOps) (text : Bytes) → Keeps Included (set_metric fl m text)
  unfolding set_metric
  Keeps-set_metric fl text =
      Keeps-if Included (is_empty (trim_space text)) _ _ (λ _ s p. p)
        (λ _.
          Keeps-option Included (fl.parse_float (trim_space text))
            (fail (parse_value (trim_space text)))
            (λ x. set_metric_value m (apply_math_transformations fl m.cfg.math x)) (λ s p. p)
            (λ x. Keeps-set_metric_value _))

  Ensures-weaken : {A : Type 0} (o : Outcome A) → Ensures Included o → Ensures AllIncluded o
  Ensures-weaken (Outcome.ok a s) h = h.0
  Ensures-weaken (Outcome.err e s) h = h.0
  Ensures-weaken (Outcome.panic p s) h = h

  included_of :
      (excludes : List Bytes) (upstream : Bytes)
      → (not (is_empty excludes) && contains_str excludes upstream) ≡ false
      → contains_str excludes upstream ≡ false
  included_of [] upstream h = unfold contains_str in refl
  included_of (x ∷ xs) upstream h = h

  module _ (fl : FloatOps) (labelled : m.cfg.upstream.label ≡ true) where
    add_upstream_label_lem :
        (upstream : Bytes) (s : Frame)
        → length m.cfg.labels < length s.labels
        → add_upstream_label m upstream s
          ≡ Outcome.ok tt (record s { labels = set s.labels (length m.cfg.labels) upstream })
    unfolding add_upstream_label
    add_upstream_label_lem upstream s room = ground arith

    Keeps-record :
        (upstream value : Bytes)
        → is_upstream_excluded m upstream ≡ false
        → Keeps AllIncluded (add_upstream_label m upstream >> set_metric fl m value)
    unfolding is_upstream_excluded
    Keeps-record upstream value kept s (room, fits) =
        let at = length m.cfg.labels in
        let here = included_of m.cfg.upstream.excludes upstream kept in
        rw (add_upstream_label_lem upstream s room, ◌>>◌, ◌>>=◌)
          (Ensures-weaken _ (
            Keeps-set_metric fl value (record s { labels = set s.labels at upstream })
              (
                (rw length-set room, fits),
                (upstream, get_elem?-set_self s.labels at upstream room, here),
              )))

    Keeps-process_element :
        (value : Bytes) (upstreams : List Bytes) (i : ℕ)
        → upstreams ≢ []
        → Keeps AllIncluded (process_element fl m value upstreams i)
    unfolding process_element process_value_with_upstream
    Keeps-process_element value upstreams i some_upstream =
        Keeps-if AllIncluded (not (str_eq value (codes "-"))) _ _
          (λ _.
            Keeps-elim AllIncluded (is_empty upstreams) _ _
              (λ e. absurd (some_upstream (is_empty→eq upstreams e)))
              (λ _.
                Keeps-lift_bind AllIncluded _ _ (get_upstream-Returns upstreams i some_upstream)
                  (λ upstream _.
                    Keeps-elim AllIncluded (is_upstream_excluded m upstream) _ _ (λ _ s p. p)
                      (λ kept. Keeps-record upstream value kept))))
          (λ _ s p. p)

    Keeps-process_each :
        (parts upstreams : List Bytes) (i : ℕ)
        → upstreams ≢ []
        → Keeps AllIncluded (process_each fl m upstreams i parts)
    unfolding process_each
    Keeps-process_each [] upstreams i h = λ s p. p
    Keeps-process_each (part ∷ parts) upstreams i h =
        Keeps-bind AllIncluded _ _ (Keeps-process_element (trim_space part) upstreams i h)
          (λ _. Keeps-process_each parts upstreams (i + 1) h)

    parse_upstreams-ne-nil :
        (line upstreams : List Bytes)
        → parse_upstreams m line ≡ Result.ok upstreams
        → upstreams ≢ []
    unfolding parse_upstreams
    parse_upstreams-ne-nil line upstreams h e =
        elim (Option-cases (get_elem? line m.cfg.upstream.addr_line_index)) [
          | inl missing ↦ ground arith
          | inr (addrs, found) ↦
              ground (arith, map-ne-nil (split addrs b',') (split-ne-nil b',' addrs))
        ]

    pub Keeps-with_upstream :
        (line : List Bytes) (value : Bytes)
        → Keeps AllIncluded (set_metric_with_upstream fl m line value)
    unfolding set_metric_with_upstream
    Keeps-with_upstream line value =
        Keeps-lift_bind AllIncluded _ _ (parse_upstreams-Returns m line) (λ upstreams e.
          subst (Keeps AllIncluded) (sym (process_comma-each fl m upstreams value)) (
            Keeps-process_each (elements (split value b',')) upstreams 0
              (parse_upstreams-ne-nil line upstreams e)))
