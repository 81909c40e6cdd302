-- ===== src/Metric/Built.antt =====
-- What `New` of internal/metric/metric.go accepts, and what it builds.
use access_log_exporter.Prelude.{
  ◌≡◌, ◌≢◌, refl, ap, ◌∙◌, ◌⊎◌, inl, inr, Bool, true, false, not, ◌||◌, ◌&&◌, List, [], ◌∷◌, Option,
  none, some, Bytes, codes, str_eq, str_eq_iff, length, length-replicate, replicate, is_empty,
  ne→is_empty, All, arith, if◌then◌else◌, ok,
}
use access_log_exporter.Float.{Float64}
use access_log_exporter.Config.Types.{Label, MetricConfig}
use access_log_exporter.Useragent
use access_log_exporter.Metric.Types.{counter_vec, gauge_vec, histogram_vec, Vec, Metric}
use access_log_exporter.Metric.New.{
  new, label_count, fill_label_keys, init_ua, make_vec, vec_of, is_none,
}
use access_log_exporter.Metric.Valid.{IsValid}
use access_log_exporter.Metric.Keys.{
  IsNamed, wants_ua, label_keys, length-label_keys, filled_keys, fill_label_keys_named,
  add_upstream_key_lem,
}

-- The configurations that `New` accepts.
pub record IsAccepted (cfg : MetricConfig) : Type 0 where
  pub named : cfg.name ≢ []
  pub valued : (cfg.value_index ≢ none) ⊎ (cfg.type ≡ codes "counter")
  pub labelled : All IsNamed cfg.labels
  pub typed :
      (cfg.type ≡ codes "counter") ⊎ (cfg.type ≡ codes "gauge") ⊎ (cfg.type ≡ codes "histogram")

module _ (defs : List Float64) (cfg : MetricConfig) where
  -- the kind and the buckets that the type stands for
  abbrev pub IsOfType : Vec → Type 0
  IsOfType vec =
      ((cfg.type ≡ codes "counter") × (vec.kind ≡ counter_vec) × (vec.buckets ≡ []))
      ⊎ ((cfg.type ≡ codes "gauge") × (vec.kind ≡ gauge_vec) × (vec.buckets ≡ []))
      ⊎ ((cfg.type ≡ codes "histogram")
          × (vec.kind ≡ histogram_vec)
          × (((cfg.buckets ≢ []) × (vec.buckets ≡ cfg.buckets))
              ⊎ ((cfg.buckets ≡ []) × (vec.buckets ≡ defs))))

  or_default :
      (buckets : List Float64)
      → ((buckets ≢ []) × ((if is_empty buckets then defs else buckets) ≡ buckets))
        ⊎ ((buckets ≡ []) × ((if is_empty buckets then defs else buckets) ≡ defs))
  or_default [] = inr (refl, refl)
  or_default (b ∷ bs) = inl ((λ e. cc), refl)

  make_vec_typed :
      (keys : List Bytes)
      → (cfg.type ≡ codes "counter") ⊎ (cfg.type ≡ codes "gauge") ⊎ (cfg.type ≡ codes "histogram")
      → (vec : Vec) × (make_vec defs cfg keys ≡ ok vec)
        × (vec.label_keys ≡ keys)
        × ((vec.name ≡ cfg.name) × (vec.help ≡ cfg.help) × (vec.const_labels ≡ cfg.const_labels))
        × (cfg.type ≡ codes "counter" → vec.kind ≡ counter_vec)
        × IsOfType vec
  unfolding make_vec
  make_vec_typed keys (inl e) = (
    vec_of cfg keys counter_vec [],
    ground (arith, str_eq_iff cfg.type (codes "counter")),
    refl,
    (refl, refl, refl),
    (λ _. refl),
    inl (e, refl, refl),
  )
  make_vec_typed keys (inr (inl e)) = (
    vec_of cfg keys gauge_vec [],
    ground (arith, str_eq_iff cfg.type (codes "counter"), str_eq_iff cfg.type (codes "gauge")),
    refl,
    (refl, refl, refl),
    (λ k. cc),
    inr (inl (e, refl, refl)),
  )
  make_vec_typed keys (inr (inr e)) = (
    vec_of cfg keys histogram_vec (if is_empty cfg.buckets then defs else cfg.buckets),
    ground (
      arith,
      str_eq_iff cfg.type (codes "counter"),
      str_eq_iff cfg.type (codes "gauge"),
      str_eq_iff cfg.type (codes "histogram"),
    ),
    refl,
    (refl, refl, refl),
    (λ k. cc),
    inr (inr (e, refl, or_default cfg.buckets)),
  )

  pub init_ua_lem :
      (parser : Useragent.Parser) (b : Bool)
      → (ua : Option Useragent.Parser) × (init_ua (some parser) b ≡ ok ua)
        × ((b ≡ false) ⊎ (ua ≢ none))
  unfolding init_ua
  init_ua_lem parser false = (none, refl, inl refl)
  init_ua_lem parser true = (some parser, refl, inr (λ e. cc))

  guard_passes :
      IsAccepted cfg → (is_none cfg.value_index && not (str_eq cfg.type (codes "counter"))) ≡ false
  guard_passes h = ground (arith, h.valued, str_eq_iff cfg.type (codes "counter"))

  wants_ua-false :
      (labels : List Label) (ua : Option Useragent.Parser)
      → (wants_ua labels ≡ false) ⊎ (ua ≢ none)
      → All (λ (label : Label). (label.user_agent ≡ false) ⊎ (ua ≢ none)) labels
  wants_ua-false [] ua h = tt
  wants_ua-false (label ∷ labels) ua (inl h) =
      (inl (ground arith), wants_ua-false labels ua (inl (ground arith)))
  wants_ua-false (label ∷ labels) ua (inr h) = (inr h, wants_ua-false labels ua (inr h))

  filled :
      IsAccepted cfg
      → fill_label_keys 0 cfg.labels (replicate (label_count cfg) []) false
        ≡ ok (filled_keys cfg, wants_ua cfg.labels || false)
  unfolding filled_keys
  filled h =
      fill_label_keys_named cfg.labels 0 (replicate (label_count cfg) []) false
        (rw length-replicate (ground arith)) h.labelled

  -- what is known of a metric that `New` returns
  pub record IsBuilt (m : Metric) : Type 0 where
    pub valid : IsValid m
    pub configured : m.cfg ≡ cfg
    pub fresh : m.labels_pool ≡ []
    pub keyed : valid.vec.label_keys ≡ label_keys cfg
    pub titled : valid.vec.name ≡ cfg.name
    pub helped : valid.vec.help ≡ cfg.help
    pub labelled : valid.vec.const_labels ≡ cfg.const_labels
    pub typed : IsOfType valid.vec

  -- With a parser at hand, `New` returns a well-formed metric for each accepted configuration.
  pub new-IsBuilt :
      (parser : Useragent.Parser)
      → IsAccepted cfg
      → (m : Metric) × (new defs (some parser) cfg ≡ ok m) × IsBuilt m
  unfolding new
  new-IsBuilt parser h =
      let (ua, ua_ok, ua_there) = init_ua_lem parser (wants_ua cfg.labels || false) in
      let (vec, vec_ok, keyed, (titled, helped, labelled), counter, typed) =
        make_vec_typed (label_keys cfg) h.typed in
      (
        record {
          metric = some vec;
          ua = ua;
          labels_pool = [];
          label_count = label_count cfg;
          cfg = cfg;
        },
        rw (
          ne→is_empty cfg.name h.named,
          guard_passes h,
          filled h,
          ua_ok,
          add_upstream_key_lem cfg,
          vec_ok,
        ),
        record {
          valid = record {
            vec = vec;
            built = refl;
            counted = refl;
            keyed = ap length keyed ∙ length-label_keys cfg;
            pooled = tt;
            parses = wants_ua-false cfg.labels ua (ground (arith, ua_there));
            increments = ground (arith, h.valued, counter);
          };
          configured = refl;
          fresh = refl;
          keyed = keyed;
          titled = titled;
          helped = helped;
          labelled = labelled;
          typed = typed;
        },
      )
