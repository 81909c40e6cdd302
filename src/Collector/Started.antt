-- ===== src/Collector/Started.antt =====
-- `New` of internal/collector/collector.go: what it starts with, and what stops it.
use access_log_exporter.Prelude.{
  ◌≡◌, refl, ap, ◌⊎◌, inl, inr, Bool, false, ◌||◌, List, [], ◌∷◌, ◌++◌, none, some, any, All, ok,
  err,
}
use access_log_exporter.Float.{Float64}
use access_log_exporter.Config.Types.{Label, MetricConfig}
use access_log_exporter.Useragent
use access_log_exporter.Metric.Types.{Error, Metric}
use access_log_exporter.Metric.Built.{IsAccepted, IsBuilt}
use access_log_exporter.Metric.Refused.{Rejects, new_total}
use access_log_exporter.Collector.Build.{
  BuildError, could_not_create, Collector, new_metrics, new_collector,
}

module _ (defs : List Float64) (parser : Useragent.Parser) where
  -- a metric for each configuration, in their order
  abbrev pub AllBuilt : List MetricConfig → List Metric → Type 0
  AllBuilt [] [] = Unit
  AllBuilt (cfg ∷ cfgs) (m ∷ ms) = IsBuilt defs cfg m × AllBuilt cfgs ms
  AllBuilt _ _ = ⊥

  -- the first configuration that is refused, and why
  pub record FailsAt (cfgs : List MetricConfig) (e : BuildError) : Type 0 where
    pub before : List MetricConfig
    pub cfg : MetricConfig
    pub after : List MetricConfig
    pub splits : cfgs ≡ before ++ cfg ∷ after
    pub accepted : All (IsAccepted) before
    pub why : Error
    pub refused : Rejects defs cfg why
    pub named : e ≡ could_not_create cfg.name why

  new_metrics_total :
      (cfgs : List MetricConfig)
      → ((ms : List Metric) × (warn : Bool) × (new_metrics defs (some parser) cfgs ≡ ok (ms, warn))
          × All IsAccepted cfgs
          × AllBuilt cfgs ms)
        ⊎ ((e : BuildError) × (new_metrics defs (some parser) cfgs ≡ err e) × FailsAt cfgs e)
  unfolding new_metrics
  new_metrics_total [] = inl ([], false, refl, tt, tt)
  new_metrics_total (cfg ∷ cfgs) = elim (new_total defs cfg parser) [
    | inr (why, refused, e) ↦ inr (
      could_not_create cfg.name why,
      rw (e, new_metrics),
      record {
        before = [];
        cfg = cfg;
        after = cfgs;
        splits = refl;
        accepted = tt;
        why = why;
        refused = refused;
        named = refl;
      },
    )
    | inl (ok_cfg, (m, e, built)) ↦ elim (new_metrics_total cfgs) [
      | inl (ms, warn, es, ok_cfgs, builts) ↦ inl (
        m ∷ ms,
        any (λ (label : Label). label.user_agent) cfg.labels || warn,
        rw (e, es, new_metrics),
        (ok_cfg, ok_cfgs),
        (built, builts),
      )
      | inr (x, es, f) ↦ inr (
        x,
        rw (e, es, new_metrics),
        record {
          before = cfg ∷ f.before;
          cfg = f.cfg;
          after = f.after;
          splits = ap (λ t. cfg ∷ t) f.splits;
          accepted = (ok_cfg, f.accepted);
          why = f.why;
          refused = f.refused;
          named = f.named;
        },
      )
    ]
  ]

  -- what `New` of the collector comes to
  pub record Starts (cfgs : List MetricConfig) (c : Collector) : Type 0 where
    pub accepted : All IsAccepted cfgs
    pub built : AllBuilt cfgs c.metrics
    pub no_errors : c.log_parse_errors ≡ 0
    pub not_received : c.log_last_received ≡ none

  -- With a user agent parser at hand, a collector either starts, with a well-formed metric of the
  -- kind of its type for each configuration in their order, no errors counted and no time of a
  -- receipt; or it fails at the first configuration that `New` of the metric refuses, with that
  -- configuration's name and reason, and never panics.
  pub new_collector_total :
      (cfgs : List MetricConfig)
      → ((c : Collector) × (warn : Bool) × (new_collector defs (some parser) cfgs ≡ ok (c, warn))
          × Starts cfgs c)
        ⊎ ((e : BuildError) × (new_collector defs (some parser) cfgs ≡ err e) × FailsAt cfgs e)
  unfolding new_collector
  new_collector_total cfgs = elim (new_metrics_total cfgs) [
    | inl (ms, warn, e, accepted, built) ↦ inl (
      record { log_parse_errors = 0; log_last_received = none; metrics = ms },
      warn,
      rw (e, new_collector),
      record { accepted = accepted; built = built; no_errors = refl; not_received = refl },
    )
    | inr (x, e, f) ↦ inr (x, rw (e, new_collector), f)
  ]
