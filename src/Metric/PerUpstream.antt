-- ===== src/Metric/PerUpstream.antt =====
-- The loop over several values of `setMetricWithUpstream` of internal/metric/metric.go, for a metric
-- that labels its samples by their upstream.
use access_log_exporter.Prelude.{
  ℕ, ◌+◌, ◌≡◌, ◌≢◌, refl, sym, ap, ◌∙◌, ◌⊎◌, Bool, true, false, List, [], ◌∷◌, ◌++◌, append_assoc,
  append-nil, some, Bytes, codes, str_eq_iff, length, arith, lt→ltb, ltb, length-append, Result,
}
use access_log_exporter.Strings.Space.{trim_space}
use access_log_exporter.Float.{Float64, FloatOps, is_negative}
use access_log_exporter.Metric.Types.{counter_vec, Call, Metric}
use access_log_exporter.Metric.Act.{Frame, Act, ok, return, ◌>>◌, then_ok}
use access_log_exporter.Metric.Set.{set_metric, apply_math_transformations}
use access_log_exporter.Metric.Upstream.{
  get_upstream_for_value, is_upstream_excluded, add_upstream_label, process_value_with_upstream,
  process_element,
}
use access_log_exporter.Metric.Writes.{set-append}
use access_log_exporter.Metric.Valid.{IsValid}
use access_log_exporter.Metric.Lines.{set_metric_lem}
use access_log_exporter.Metric.Values.{process_each}
use access_log_exporter.Metric.Recorded.{call_of, set_kind-call_of, ne→str_eq, upstream_there}

module _ (fl : FloatOps) (m : Metric) (v : IsValid m) (upstreams values : List Bytes) where
  -- The calls for the parts from position `i` on: none for "-", for an excluded upstream and for a
  -- blank; else the number of the part, scaled, under the labels and the upstream at its position.
  pub data Records : ℕ → List Bytes → List Call → Type 0 where
    at_end : (i : ℕ) → Records i [] []
    dashed :
        (i : ℕ) (part : Bytes) (parts : List Bytes) (calls : List Call)
        → trim_space part ≡ codes "-"
        → Records (i + 1) parts calls
        → Records i (part ∷ parts) calls
    left_out :
        (i : ℕ) (part u : Bytes) (parts : List Bytes) (calls : List Call)
        → trim_space part ≢ codes "-"
        → get_upstream_for_value upstreams i ≡ Result.ok u
        → is_upstream_excluded m u ≡ true
        → Records (i + 1) parts calls
        → Records i (part ∷ parts) calls
    blank :
        (i : ℕ) (part u : Bytes) (parts : List Bytes) (calls : List Call)
        → trim_space part ≢ codes "-"
        → get_upstream_for_value upstreams i ≡ Result.ok u
        → is_upstream_excluded m u ≡ false
        → trim_space (trim_space part) ≡ []
        → Records (i + 1) parts calls
        → Records i (part ∷ parts) calls
    number :
        (i : ℕ) (part u : Bytes) (x : Float64) (parts : List Bytes) (calls : List Call)
        → trim_space part ≢ codes "-"
        → get_upstream_for_value upstreams i ≡ Result.ok u
        → is_upstream_excluded m u ≡ false
        → trim_space (trim_space part) ≢ []
        → fl.parse_float (trim_space (trim_space part)) ≡ some x
        → (v.vec.kind ≢ counter_vec)
          ⊎ (is_negative (apply_math_transformations fl m.cfg.math x) ≡ false)
        → Records (i + 1) parts calls
        → Records i (part ∷ parts) (
            call_of v.vec.kind (values ++ u ∷ []) (apply_math_transformations fl m.cfg.math x)
            ∷ calls)

  module _ (label : m.cfg.upstream.label ≡ true) (count : length values ≡ length m.cfg.labels) where
    unfoldable pub frame : Bytes → List Call → Frame
    frame slot done = record { labels = values ++ slot ∷ []; calls = done }

    element_dash :
        (element : Bytes) (i : ℕ) (s : Frame)
        → element ≡ codes "-"
        → process_element fl m element upstreams i s ≡ ok tt s
    unfolding process_element
    element_dash element i s e = rw ((str_eq_iff element (codes "-")).1 e, process_element) refl

    has_room : (slot : Bytes) → ltb (length values) (length (values ++ slot ∷ [])) ≡ true
    has_room slot = lt→ltb _ _ (omega (arith, length-append values (slot ∷ [])))

    relabel :
        (u slot : Bytes) (done : List Call)
        → add_upstream_label m u (frame slot done) ≡ ok tt (frame u done)
    unfolding add_upstream_label frame
    relabel u slot done =
        rw (label, add_upstream_label, ← count, has_room slot, set-append values slot u []) refl

    -- by whether the upstream is excluded
    unless : Bool → Bytes → Bytes → Act (Unit {0})
    unless excluded u element = elim excluded [
      | true ↦ return tt
      | false ↦ add_upstream_label m u >> set_metric fl m element
    ]

    element_upstream :
        (element u : Bytes) (i : ℕ) (s : Frame)
        → element ≢ codes "-"
        → get_upstream_for_value upstreams i ≡ Result.ok u
        → process_element fl m element upstreams i s ≡ unless (is_upstream_excluded m u) u element s
    unfolding process_element process_value_with_upstream unless
    element_upstream element u i s h e =
        rw
          (
            ne→str_eq element (codes "-") h,
            process_element,
            upstream_there upstreams i e,
            process_value_with_upstream,
            e,
          )
          refl

    element_kept :
        (element u : Bytes) (i : ℕ) (slot : Bytes) (done : List Call)
        → element ≢ codes "-"
        → get_upstream_for_value upstreams i ≡ Result.ok u
        → is_upstream_excluded m u ≡ false
        → process_element fl m element upstreams i (frame slot done)
          ≡ set_metric fl m element (frame u done)
    unfolding unless
    element_kept element u i slot done h e kept =
        element_upstream element u i (frame slot done) h e
        ∙ ap (λ b. unless b u element (frame slot done)) kept
        ∙ then_ok (add_upstream_label m u) (set_metric fl m element) (frame slot done)
            (frame u done) (relabel u slot done)

    element_excluded :
        (element u : Bytes) (i : ℕ) (s : Frame)
        → element ≢ codes "-"
        → get_upstream_for_value upstreams i ≡ Result.ok u
        → is_upstream_excluded m u ≡ true
        → process_element fl m element upstreams i s ≡ ok tt s
    unfolding unless
    element_excluded element u i s h e out =
        element_upstream element u i s h e ∙ ap (λ b. unless b u element s) out

    set_blank :
        (element : Bytes) (s : Frame)
        → trim_space element ≡ []
        → set_metric fl m element s ≡ ok tt s
    unfolding set_metric
    set_blank element s h = rw (h, set_metric) refl

    set_number :
        (element u : Bytes) (x : Float64) (done : List Call)
        → trim_space element ≢ []
        → fl.parse_float (trim_space element) ≡ some x
        → (v.vec.kind ≢ counter_vec)
          ⊎ (is_negative (apply_math_transformations fl m.cfg.math x) ≡ false)
        → set_metric fl m element (frame u done)
          ≡ ok tt (
              frame u (
                done
                ++ call_of v.vec.kind
                    (values ++ u ∷ [])
                    (apply_math_transformations fl m.cfg.math x)
                  ∷ []))
    unfolding frame
    set_number element u x done full e fits =
        set_metric_lem fl m v 0 [] element x (frame u done) full e
        ∙ set_kind-call_of v.vec.kind (apply_math_transformations fl m.cfg.math x) (frame u done)
            fits

    -- one part, then the others
    next_part :
        (part : Bytes) (parts : List Bytes) (i : ℕ) (s t : Frame)
        → process_element fl m (trim_space part) upstreams i s ≡ ok tt t
        → process_each fl m upstreams i (part ∷ parts) s
          ≡ process_each fl m upstreams (i + 1) parts t
    unfolding process_each
    next_part part parts i s t e =
        then_ok (process_element fl m (trim_space part) upstreams i)
          (process_each fl m upstreams (i + 1) parts) s t e

    -- the calls of what is left of the value are added, and the last upstream stays
    pub each-Records :
        {i : ℕ} {parts : List Bytes} {calls : List Call}
        → Records i parts calls
        → (slot : Bytes) (done : List Call)
        → (last : Bytes) × (process_each fl m upstreams i parts (frame slot done)
            ≡ ok tt (frame last (done ++ calls)))
    unfolding process_each
    each-Records (at_end i) slot done =
        (slot, ap (λ cs. ok tt (frame slot cs)) (sym (append-nil done)))
    each-Records (dashed i part parts calls dash rest) slot done =
        let (last, e) = each-Records rest slot done in
        (
          last,
          next_part part parts i _ _ (element_dash (trim_space part) i (frame slot done) dash) ∙ e,
        )
    each-Records (left_out i part u parts calls h e out rest) slot done =
        let (last, e') = each-Records rest slot done in
        (
          last,
          next_part part parts i _ _
                (element_excluded (trim_space part) u i (frame slot done) h e out)
              ∙ e',
        )
    each-Records (blank i part u parts calls h e kept empty rest) slot done =
        let (last, e') = each-Records rest u done in
        (
          last,
          next_part part parts i _ _ (
                element_kept (trim_space part) u i slot done h e kept
                ∙ set_blank (trim_space part) (frame u done) empty)
              ∙ e',
        )
    each-Records (number i part u x parts calls' h e kept full num fits rest) slot done =
        let c =
          call_of v.vec.kind (values ++ u ∷ []) (apply_math_transformations fl m.cfg.math x) in
        let (last, e') = each-Records rest u (done ++ c ∷ []) in
        (
          last,
          next_part part parts i _ _ (
                element_kept (trim_space part) u i slot done h e kept
                ∙ set_number (trim_space part) u x done full num fits)
              ∙ e'
              ∙ ap (λ cs. ok tt (frame last cs)) (append_assoc done (c ∷ []) calls'),
        )
