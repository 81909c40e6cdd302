-- ===== src/Metric/Refused.antt =====
-- What `New` of internal/metric/metric.go refuses.
use access_log_exporter.Prelude.{
  ◌≡◌, ◌≢◌, ◌⊎◌, inl, inr, true, false, not, ◌||◌, ◌&&◌, List, [], ◌∷◌, none, some, Bytes, codes,
  str_eq, str_eq_iff, str_ne, length-replicate, replicate, is_empty, is_empty→eq, is_empty→ne,
  ne→is_empty, All, Bool-cases, arith, ok, err,
}
use access_log_exporter.Float.{Float64}
use access_log_exporter.Config.Types.{Label, MetricConfig}
use access_log_exporter.Useragent
use access_log_exporter.Metric.Types.{
  Error, empty_name, value_index_required, empty_label_name, unsupported_type, Metric,
}
use access_log_exporter.Metric.New.{new, label_count, make_vec, is_none}
use access_log_exporter.Metric.Keys.{
  IsNamed, wants_ua, filled_keys, fill_label_keys_named, fill_label_keys_unnamed,
  add_upstream_key_lem,
}
use access_log_exporter.Metric.Built.{IsAccepted, IsBuilt, init_ua_lem, new-IsBuilt}

module _ (defs : List Float64) (cfg : MetricConfig) where
  -- Why `New` refuses a configuration: the first of these reasons that holds.
  pub data Rejects : Error → Type 0 where
    no_name : cfg.name ≡ [] → Rejects empty_name
    no_value :
        cfg.name ≢ []
        → cfg.value_index ≡ none
        → cfg.type ≢ codes "counter"
        → Rejects value_index_required
    no_label_name :
        cfg.name ≢ []
        → (cfg.value_index ≢ none) ⊎ (cfg.type ≡ codes "counter")
        → ¬ All IsNamed cfg.labels
        → Rejects empty_label_name
    no_type :
        cfg.name ≢ []
        → cfg.value_index ≢ none
        → All IsNamed cfg.labels
        → cfg.type ≢ codes "counter"
        → cfg.type ≢ codes "gauge"
        → cfg.type ≢ codes "histogram"
        → Rejects (unsupported_type cfg.type)

  named? : (labels : List Label) → All IsNamed labels ⊎ (¬ All IsNamed labels)
  named? [] = inl tt
  named? (label ∷ labels) = elim (Bool-cases (is_empty label.name)) [
    | inl e ↦ inr (λ h. h.0 (is_empty→eq _ e))
    | inr e ↦ elim (named? labels) [
      | inl hs ↦ inl (is_empty→ne _ e, hs)
      | inr no_hs ↦ inr (λ h. no_hs h.1)
    ]
  ]

  module _ (parser : Useragent.Parser) (named : cfg.name ≢ []) where
    reject_value :
        (is_none cfg.value_index && not (str_eq cfg.type (codes "counter"))) ≡ true
        → new defs (some parser) cfg ≡ err value_index_required
    unfolding new
    reject_value e = rw (ne→is_empty cfg.name named, e)

    reject_label :
        (is_none cfg.value_index && not (str_eq cfg.type (codes "counter"))) ≡ false
        → ¬ All IsNamed cfg.labels
        → new defs (some parser) cfg ≡ err empty_label_name
    unfolding new
    reject_label e h = rw (
      ne→is_empty cfg.name named,
      e,
      fill_label_keys_unnamed cfg.labels 0 (replicate (label_count cfg) []) false
          (rw length-replicate (ground arith)) h,
    )

    reject_type :
        (is_none cfg.value_index && not (str_eq cfg.type (codes "counter"))) ≡ false
        → (h : All IsNamed cfg.labels)
        → ((keys : List Bytes) → make_vec defs cfg keys ≡ err (unsupported_type cfg.type))
        → new defs (some parser) cfg ≡ err (unsupported_type cfg.type)
    unfolding new filled_keys
    reject_type e h bad =
        let (ua, ua_ok, _) = init_ua_lem defs cfg parser (wants_ua cfg.labels || false) in
        let fill =
          fill_label_keys_named cfg.labels 0 (replicate (label_count cfg) []) false
            (rw length-replicate (ground arith)) h in
        rw (ne→is_empty cfg.name named, e, fill, ua_ok, add_upstream_key_lem cfg, bad)

  guard-cases :
      (((is_none cfg.value_index && not (str_eq cfg.type (codes "counter"))) ≡ true)
        × (cfg.value_index ≡ none)
        × (cfg.type ≢ codes "counter"))
      ⊎ (((is_none cfg.value_index && not (str_eq cfg.type (codes "counter"))) ≡ false)
          × ((cfg.value_index ≢ none) ⊎ (cfg.type ≡ codes "counter")))
  guard-cases = ground (arith, str_eq_iff cfg.type (codes "counter"))

  type-cases :
      ((cfg.type ≡ codes "counter") ⊎ (cfg.type ≡ codes "gauge") ⊎ (cfg.type ≡ codes "histogram"))
      ⊎ ((cfg.type ≢ codes "counter")
          × (cfg.type ≢ codes "gauge")
          × (cfg.type ≢ codes "histogram")
          × ((keys : List Bytes) → make_vec defs cfg keys ≡ err (unsupported_type cfg.type)))
  unfolding make_vec
  type-cases = elim (Bool-cases (str_eq cfg.type (codes "counter"))) [
    | inl c ↦ inl (inl ((str_eq_iff _ _).0 c))
    | inr nc ↦ elim (Bool-cases (str_eq cfg.type (codes "gauge"))) [
      | inl g ↦ inl (inr (inl ((str_eq_iff _ _).0 g)))
      | inr ng ↦ elim (Bool-cases (str_eq cfg.type (codes "histogram"))) [
        | inl h ↦ inl (inr (inr ((str_eq_iff _ _).0 h)))
        | inr nh ↦ inr (
          str_ne cfg.type (codes "counter") nc,
          str_ne cfg.type (codes "gauge") ng,
          str_ne cfg.type (codes "histogram") nh,
          λ keys. rw (nc, ng, nh),
        )
      ]
    ]
  ]

  -- With a user agent parser at hand, `New` either accepts the configuration, which then has a name,
  -- a value index or the type counter, named labels and a supported type, and returns a well-formed
  -- metric of that configuration with the expected label keys, an empty pool and a vector of the
  -- kind of its type, where a histogram has the configured buckets, or the default ones if there are
  -- none; or it returns the error of the first of these conditions that fails, and never panics.
  pub new_total :
      (parser : Useragent.Parser)
      → (IsAccepted cfg × ((m : Metric) × (new defs (some parser) cfg ≡ ok m) × IsBuilt defs cfg m))
        ⊎ ((e : Error) × Rejects e × (new defs (some parser) cfg ≡ err e))
  new_total parser = elim (Bool-cases (is_empty cfg.name)) [
    | inl e ↦ inr (empty_name, no_name (is_empty→eq _ e), unfold new in rw e)
    | inr e ↦
        let named = is_empty→ne _ e in
        elim guard-cases [
          | inl (g, no_index, no_counter) ↦ inr (
            value_index_required,
            no_value named no_index no_counter,
            reject_value parser named g,
          )
          | inr (g, valued) ↦ elim (named? cfg.labels) [
            | inr unnamed ↦ inr (
              empty_label_name,
              no_label_name named valued unnamed,
              reject_label parser named g unnamed,
            )
            | inl labelled ↦ elim type-cases [
              | inl typed ↦
                  let h : IsAccepted cfg = record {
                    named = named;
                    valued = valued;
                    labelled = labelled;
                    typed = typed;
                  } in
                  inl (h, new-IsBuilt defs cfg parser h)
              | inr (nc, ng, nh, bad) ↦ inr (
                unsupported_type cfg.type,
                no_type named (ground (arith, valued)) labelled nc ng nh,
                reject_type parser named g labelled bad,
              )
            ]
          ]
        ]
  ]
