-- ===== src/Collector/Build.antt =====
-- `New` of internal/collector/collector.go, up to the start of the workers.
use access_log_exporter.Prelude.{
  ℕ, Bool, false, ◌||◌, List, [], ◌∷◌, Option, none, Bytes, any, Result, ok, err, panic,
}
use access_log_exporter.Float.{Float64}
use access_log_exporter.Config.Types.{Label, MetricConfig}
use access_log_exporter.Useragent
use access_log_exporter.Metric.Types.{Error, Metric}
use access_log_exporter.Metric.New.{new}

-- "could not create metric", with its name
pub data BuildError : Type 0 where
  could_not_create : Bytes → Error → BuildError

-- `types.go`: the two counters of the collector itself, and the metrics. A gauge that was never set
-- is 0 in Prometheus; `none` stands for that.
pub record Collector : Type 0 where
  pub log_parse_errors : ℕ
  pub log_last_received : Option ℕ
  pub metrics : List Metric

module _ (def_buckets : List Float64) (built : Option Useragent.Parser) where
  -- the loop over the metrics of the preset; the flag is `userAgent`
  unfoldable pub new_metrics : List MetricConfig → Result BuildError (List Metric × Bool)
  new_metrics [] = ok ([], false)
  new_metrics (cfg ∷ cfgs) = elim (new def_buckets built cfg) [
    | err e ↦ err (could_not_create cfg.name e)
    | panic p ↦ panic p
    | ok m ↦ elim (new_metrics cfgs) [
      | err e ↦ err e
      | panic p ↦ panic p
      | ok (ms, user_agent) ↦
          ok (m ∷ ms, any (λ (label : Label). label.user_agent) cfg.labels || user_agent)
    ]
  ]

  -- The flag of the result tells that the warning about user agents is logged.
  unfoldable pub new_collector : List MetricConfig → Result BuildError (Collector × Bool)
  unfolding new_metrics
  new_collector cfgs = elim (new_metrics cfgs) [
    | err e ↦ err e
    | panic p ↦ panic p
    | ok (ms, user_agent) ↦
        ok (record { log_parse_errors = 0; log_last_received = none; metrics = ms }, user_agent)
  ]
