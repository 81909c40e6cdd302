-- ===== src/Metric/SafeUpstream.antt =====
-- The loop over the values of a field in internal/metric/metric.go.
use access_log_exporter.Prelude.{
  ℕ, zero, suc, ◌+◌, ◌<◌, ◌≡◌, ◌≢◌, refl, inl, inr, true, not, List, [], ◌∷◌, Bytes, str_eq, codes,
  length, is_empty, is_empty→ne, Option-cases, arith, Returns,
}
use access_log_exporter.Strings.Search.{cut}
use access_log_exporter.Strings.Laws.{cut-shorter}
use access_log_exporter.Float.{FloatOps}
use access_log_exporter.Metric.Types.{Metric}
use access_log_exporter.Metric.Upstream.{
  parse_upstreams, extract_next_value, get_upstream_for_value, is_upstream_excluded,
  add_upstream_label, process_value_with_upstream, process_element, process_values,
  process_comma_delimited_values, set_metric_with_upstream,
}
use access_log_exporter.Metric.Keeps.{Keeps, Keeps-bind, Keeps-lift_bind, Keeps-if, Keeps-elim}
use access_log_exporter.Metric.Valid.{IsValid}
use access_log_exporter.Metric.Safe.{FrameFits, index-Returns, Keeps-set_label, Keeps-set_metric}

pub extract-shorter :
    (value : Bytes)
    → (extract_next_value value).1 ≢ []
    → length (extract_next_value value).1 < length value
unfolding extract_next_value
extract-shorter value h = elim (Option-cases (cut value b',')) [
  | inl e ↦ absurd (h (rw (e, extract_next_value)))
  | inr ((before, after), e) ↦ rw (e, extract_next_value) (cut-shorter b',' value before after e)
]

pub parse_upstreams-Returns : (m : Metric) (line : List Bytes) → Returns (parse_upstreams m line)
unfolding parse_upstreams
parse_upstreams-Returns m line = ground (arith, index-Returns line m.cfg.upstream.addr_line_index)

pub get_upstream-Returns :
    (upstreams : List Bytes) (i : ℕ) → upstreams ≢ [] → Returns (get_upstream_for_value upstreams i)
unfolding get_upstream_for_value
get_upstream-Returns [] i h = absurd (h refl)
get_upstream-Returns (u ∷ us) i h = index-Returns (u ∷ us) _ (ground arith)

module _ (fl : FloatOps) (m : Metric) (v : IsValid m)
    (enabled : m.cfg.upstream.enabled ≡ true) where
  Keeps-add_upstream_label :
      (upstream : Bytes) → Keeps (FrameFits v.vec) (add_upstream_label m upstream)
  unfolding add_upstream_label
  Keeps-add_upstream_label upstream =
      Keeps-if (FrameFits v.vec) m.cfg.upstream.label _ _
        (λ e.
          Keeps-set_label v.vec (length m.cfg.labels) upstream (ground (arith, v.keyed, v.counted)))
        (λ _ s p. p)

  Keeps-process_value :
      (value : Bytes) (upstreams : List Bytes) (i : ℕ)
      → Keeps (FrameFits v.vec) (process_value_with_upstream fl m value upstreams i)
  unfolding process_value_with_upstream
  Keeps-process_value value upstreams i =
      Keeps-elim (FrameFits v.vec) (is_empty upstreams) _ _
        (λ _. Keeps-set_metric v.vec m v.built fl value)
        (λ e.
          Keeps-lift_bind (FrameFits v.vec) _ _
            (get_upstream-Returns upstreams i (is_empty→ne upstreams e))
            (λ upstream _.
              Keeps-elim (FrameFits v.vec) (is_upstream_excluded m upstream) _ _ (λ _ s p. p)
                (λ _.
                  Keeps-bind (FrameFits v.vec) _ _ (Keeps-add_upstream_label upstream)
                    (λ _. Keeps-set_metric v.vec m v.built fl value))))

  Keeps-process_element :
      (value : Bytes) (upstreams : List Bytes) (i : ℕ)
      → Keeps (FrameFits v.vec) (process_element fl m value upstreams i)
  unfolding process_element
  Keeps-process_element value upstreams i =
      Keeps-if (FrameFits v.vec) (not (str_eq value (codes "-"))) _ _
        (λ _. Keeps-process_value value upstreams i) (λ _ s p. p)

  Keeps-process_values :
      (fuel : ℕ) (value : Bytes) (upstreams : List Bytes) (i : ℕ)
      → length value < fuel
      → Keeps (FrameFits v.vec) (process_values fl m fuel value upstreams i)
  unfolding process_values
  Keeps-process_values zero value upstreams i enough = elim enough [ ]
  Keeps-process_values (suc fuel) value upstreams i enough =
      let rest = (extract_next_value value).1 in
      Keeps-bind (FrameFits v.vec) _ _
        (Keeps-process_element (extract_next_value value).0 upstreams i)
        (λ _.
          Keeps-elim (FrameFits v.vec) (is_empty rest) _ _ (λ _ s p. p)
            (λ more.
              Keeps-process_values fuel rest upstreams (i + 1)
                (omega (arith, extract-shorter value (is_empty→ne rest more)))))

  pub Keeps-set_metric_with_upstream :
      (line : List Bytes) (value : Bytes)
      → Keeps (FrameFits v.vec) (set_metric_with_upstream fl m line value)
  unfolding set_metric_with_upstream process_comma_delimited_values
  Keeps-set_metric_with_upstream line value =
      Keeps-lift_bind (FrameFits v.vec) _ _ (parse_upstreams-Returns m line)
        (λ upstreams _. Keeps-process_values (suc (length value)) value upstreams 0 (omega arith))
