-- ===== src/Collector/Describe.antt =====
-- Describe and Collect of internal/collector/collector.go.
use access_log_exporter.Prelude.{ℕ, List, [], ◌∷◌, ◌++◌, Option, codes, map}
use access_log_exporter.Metric.Types.{Vec, Metric}
use access_log_exporter.Metric.Describe
use access_log_exporter.Metric.Describe.{Desc}
use access_log_exporter.Collector.Build.{Collector}

-- the two metrics of the collector itself, without labels
abbrev pub parse_error_desc : Desc
parse_error_desc = record {
  fq_name = codes "log_parse_errors_total";
  help = codes "Total number of parse errors";
  label_keys = [];
  const_labels = [];
}

abbrev pub last_received_desc : Desc
last_received_desc = record {
  fq_name = codes "log_last_received_timestamp_seconds";
  help = codes "Timestamp of the last received log message in seconds since epoch";
  label_keys = [];
  const_labels = [];
}

-- the loop over the metrics
unfoldable pub describe_all : List Metric → List Desc
describe_all [] = []
describe_all (m ∷ ms) = Describe.describe m ++ describe_all ms

unfoldable pub describe : Collector → List Desc
unfolding describe_all
describe c = parse_error_desc ∷ last_received_desc ∷ describe_all c.metrics

-- what is sent: a count, a time, or a metric of a vector
pub data Sent {ℓ} (A : Type ℓ) : Type ℓ where
  counted : ℕ → Sent A
  received_at : Option ℕ → Sent A
  child : A → Sent A

module _ {ℓ} {A : Type ℓ} (children : Vec → List A) where
  unfoldable pub collect_all : List Metric → List (Desc × Sent A)
  collect_all [] = []
  collect_all (m ∷ ms) =
      map (λ (p : Desc × A). (p.0, child p.1)) (Describe.collect children m) ++ collect_all ms

  unfoldable pub collect : Collector → List (Desc × Sent A)
  unfolding collect_all
  collect c =
      (parse_error_desc, counted c.log_parse_errors)
      ∷ (last_received_desc, received_at c.log_last_received)
      ∷ collect_all c.metrics
