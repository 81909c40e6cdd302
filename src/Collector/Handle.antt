-- ===== src/Collector/Handle.antt =====
-- `lineHandler` of internal/collector/line.go.
use access_log_exporter.Prelude.{
  ℕ, ◌+◌, List, [], ◌∷◌, ◌++◌, Option, none, some, Bytes, Fault, Result, ok, err, panic,
}
use access_log_exporter.Float.{FloatOps}
use access_log_exporter.Metric.Types.{Error, Call, Metric}
use access_log_exporter.Metric.Parse.{Parsed, parse}

-- The metrics after the line, the calls of each, and the errors with the metrics' names. A panic of
-- a metric ends the loop.
pub record Handled : Type 0 where
  pub metrics : List Metric
  pub calls : List (List Call)
  pub errs : List (Bytes × Error)
  pub fault : Option Fault

abbrev pub error_of : Metric → Result Error (Unit {0}) → List (Bytes × Error)
error_of m (ok _) = []
error_of m (err e) = (m.cfg.name, e) ∷ []
error_of m (panic p) = []

-- a round of the loop, by the result of `Parse` and by what the later rounds do
abbrev pub add_parsed : Metric → Parsed → List Metric → Handled → Result Error (Unit {0}) → Handled
add_parsed m p ms rest (panic f) = record {
  metrics = p.after ∷ ms;
  calls = p.calls ∷ [];
  errs = [];
  fault = some f;
}
add_parsed m p ms rest result = record {
  metrics = p.after ∷ rest.metrics;
  calls = p.calls ∷ rest.calls;
  errs = error_of m result ++ rest.errs;
  fault = rest.fault;
}

-- the function gives the choice of the pool of each metric, by its position
unfoldable pub handle_from : FloatOps → (ℕ → ℕ) → ℕ → List Bytes → List Metric → Handled
handle_from fl choice i line [] = record { metrics = []; calls = []; errs = []; fault = none }
handle_from fl choice i line (m ∷ ms) =
    let p = parse fl m (choice i) line in
    add_parsed m p ms (handle_from fl choice (i + 1) line ms) p.result

unfoldable pub line_handler : FloatOps → (ℕ → ℕ) → List Bytes → List Metric → Handled
unfolding handle_from
line_handler fl choice line ms = handle_from fl choice 0 line ms
