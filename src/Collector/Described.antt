-- ===== src/Collector/Described.antt =====
-- What the collector of internal/collector describes to the registry, over its life.
use access_log_exporter.Prelude.{
  ℕ, ◌+◌, true, false, ◌≡◌, refl, ap, ap₂, ◌∙◌, Bool, List, [], ◌∷◌, ◌++◌, none, some, Bytes, map,
  ok, err, panic, Result,
}
use access_log_exporter.Float.{Float64, FloatOps}
use access_log_exporter.Config.Types.{MetricConfig}
use access_log_exporter.Useragent
use access_log_exporter.Metric.Types.{Error, Metric}
use access_log_exporter.Metric.Act.{Outcome}
use access_log_exporter.Metric.Labels.{return_labels_to_pool}
use access_log_exporter.Metric.Parse.{Parsed, release, proceed, parse, validate_and_extract_value}
use access_log_exporter.Metric.Keys.{label_keys}
use access_log_exporter.Metric.Built.{IsBuilt}
use access_log_exporter.Metric.Describe
use access_log_exporter.Metric.Describe.{Desc, desc_of}
use access_log_exporter.Collector.Fields.{split_line_fields}
use access_log_exporter.Collector.Handle.{Handled, add_parsed, handle_from, line_handler}
use access_log_exporter.Collector.Describe.{
  parse_error_desc, last_received_desc, describe_all, describe,
}
use access_log_exporter.Collector.Workers.{
  System, receive, handle, Step, send, close, cancel, take_message, handle_message, stop_closed,
  stop_cancelled, Reach, here, next,
}
use access_log_exporter.Collector.Started.{AllBuilt}

-- the vector of a metric stays as it is

release-metric :
    (m : Metric) (pool : List (List Bytes)) (o : Outcome (Unit {0}))
    → (release m pool o).after.metric ≡ m.metric
unfolding release return_labels_to_pool
release-metric m pool (Outcome.ok a s) = refl
release-metric m pool (Outcome.err e s) = refl
release-metric m pool (Outcome.panic p s) = refl

proceed-metric :
    (fl : FloatOps) (m : Metric) (choice : ℕ) (line : List Bytes) (r : Result Error (Bytes × Bool))
    → (proceed fl m choice line r).after.metric ≡ m.metric
unfolding proceed
proceed-metric fl m choice line (err e) = refl
proceed-metric fl m choice line (panic p) = refl
proceed-metric fl m choice line (ok (value, true)) = refl
proceed-metric fl m choice line (ok (value, false)) = release-metric m _ _

describe-parse :
    (fl : FloatOps) (m : Metric) (choice : ℕ) (line : List Bytes)
    → Describe.describe (parse fl m choice line).after ≡ Describe.describe m
unfolding parse Describe.describe
describe-parse fl m choice line =
    ap (λ o. elim o [ none ↦ [] | some vec ↦ desc_of vec ∷ [] ])
      (proceed-metric fl m choice line (validate_and_extract_value m line))

describe_all-added :
    (m : Metric) (p : Parsed) (ms : List Metric) (rest : Handled) (r : Result Error (Unit {0}))
    → Describe.describe p.after ≡ Describe.describe m
    → describe_all rest.metrics ≡ describe_all ms
    → describe_all (add_parsed m p ms rest r).metrics ≡ describe_all (m ∷ ms)
unfolding describe_all
describe_all-added m p ms rest (panic f) e h = ap (λ d. d ++ describe_all ms) e
describe_all-added m p ms rest (ok a) e h = ap₂ (◌++◌) e h
describe_all-added m p ms rest (err x) e h = ap₂ (◌++◌) e h

describe_all-handled :
    (fl : FloatOps) (choice : ℕ → ℕ) (i : ℕ) (line : List Bytes) (ms : List Metric)
    → describe_all (handle_from fl choice i line ms).metrics ≡ describe_all ms
unfolding handle_from
describe_all-handled fl choice i line [] = refl
describe_all-handled fl choice i line (m ∷ ms) =
    describe_all-added m (parse fl m (choice i) line) ms _ _ (describe-parse fl m (choice i) line)
      (describe_all-handled fl choice (i + 1) line ms)

module _ (fl : FloatOps) where
  Step-describe : {s t : System} → Step fl s t → describe t.collector ≡ describe s.collector
  unfolding describe receive handle line_handler
  Step-describe (send msg o) = refl
  Step-describe close = refl
  Step-describe cancel = refl
  Step-describe (take_message i now fields msg rest w q) = refl
  Step-describe {s} (handle_message i fields msg choice w) =
      ap (λ ds. parse_error_desc ∷ last_received_desc ∷ ds)
        (describe_all-handled fl choice 0 (split_line_fields fields msg.line) s.collector.metrics)
  Step-describe (stop_closed i fields w c q) = refl
  Step-describe (stop_cancelled i fields w c) = refl

  pub Reach-describe : {s t : System} → Reach fl s t → describe t.collector ≡ describe s.collector
  Reach-describe here = refl
  Reach-describe (next r step) = Step-describe step ∙ Reach-describe r

-- the description that a configuration asks for
abbrev pub configured : MetricConfig → Desc
configured cfg = record {
  fq_name = cfg.name;
  help = cfg.help;
  label_keys = label_keys cfg;
  const_labels = cfg.const_labels;
}

describe-built :
    (defs : List Float64) (cfg : MetricConfig) (m : Metric)
    → IsBuilt defs cfg m
    → Describe.describe m ≡ configured cfg ∷ []
unfolding Describe.describe
describe-built defs cfg m b =
    rw (b.valid.built, Describe.describe)
      (λ i.
        record {
          fq_name = b.titled i;
          help = b.helped i;
          label_keys = b.keyed i;
          const_labels = b.labelled i;
        }
        ∷ [])

pub describe_all-built :
    (defs : List Float64) (parser : Useragent.Parser) (cfgs : List MetricConfig) (ms : List Metric)
    → AllBuilt defs parser cfgs ms
    → describe_all ms ≡ map configured cfgs
unfolding describe_all
describe_all-built defs parser [] [] b = refl
describe_all-built defs parser [] (m ∷ ms) b = absurd b
describe_all-built defs parser (cfg ∷ cfgs) [] b = absurd b
describe_all-built defs parser (cfg ∷ cfgs) (m ∷ ms) (b, bs) =
    ap₂ (◌++◌) (describe-built defs cfg m b) (describe_all-built defs parser cfgs ms bs)
