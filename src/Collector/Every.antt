-- ===== src/Collector/Every.antt =====
-- `lineHandler` of internal/collector/line.go against each metric alone.
use access_log_exporter.Prelude.{
  ℕ, ◌+◌, ◌≡◌, refl, sym, ap, ap₂, subst, List, [], ◌∷◌, ◌++◌, map, none, Bytes, All, Result, ok,
  err, panic, Returns,
}
use access_log_exporter.Float.{FloatOps}
use access_log_exporter.Metric.Types.{Error, Call, Metric}
use access_log_exporter.Metric.Parse.{Parsed, parse}
use access_log_exporter.Metric.Valid.{IsValid, HasDecoded}
use access_log_exporter.Metric.SafeParse.{parse-Returns, parse-IsValid}
use access_log_exporter.Metric.History.{parse_alone, parse-alone, parse-after}
use access_log_exporter.Collector.Handle.{Handled, error_of, add_parsed, handle_from, line_handler}

pub record IsReady (m : Metric) : Type 0 where
  pub valid : IsValid m
  pub decoded : HasDecoded m.cfg

module _ (fl : FloatOps) (line : List Bytes) where
  -- what each metric does with the line if it is the only one
  abbrev pub alone_calls : List Metric → List (List Call)
  alone_calls ms = map (λ m. (parse_alone fl m line).0) ms

  abbrev pub alone_errs : List Metric → List (Bytes × Error)
  alone_errs [] = []
  alone_errs (m ∷ ms) = error_of m (parse_alone fl m line).1 ++ alone_errs ms

  -- The handler went through all the metrics.
  pub record HandlesAll (ms : List Metric) (h : Handled) : Type 0 where
    pub no_fault : h.fault ≡ none
    pub called : h.calls ≡ alone_calls ms
    pub failed : h.errs ≡ alone_errs ms
    pub ready : All IsReady h.metrics

  add_parsed-HandlesAll :
      (m : Metric) (p : Parsed) (ms : List Metric) (rest : Handled) (r : Result Error (Unit {0}))
      → Returns r
      → (p.calls, r) ≡ parse_alone fl m line
      → IsReady p.after
      → HandlesAll ms rest
      → HandlesAll (m ∷ ms) (add_parsed m p ms rest r)
  add_parsed-HandlesAll m p ms rest (ok a) h same v all = record {
    no_fault = all.no_fault;
    called = ap₂ (λ c cs. c ∷ cs) (ap (λ o. o.0) same) all.called;
    failed = ap₂ (λ o es. error_of m o ++ es) (ap (λ o. o.1) same) all.failed;
    ready = (v, all.ready);
  }
  add_parsed-HandlesAll m p ms rest (err e) h same v all = record {
    no_fault = all.no_fault;
    called = ap₂ (λ c cs. c ∷ cs) (ap (λ o. o.0) same) all.called;
    failed = ap₂ (λ o es. error_of m o ++ es) (ap (λ o. o.1) same) all.failed;
    ready = (v, all.ready);
  }
  add_parsed-HandlesAll m p ms rest (panic f) h same v all = absurd h

  parse-IsReady : (m : Metric) (choice : ℕ) → IsReady m → IsReady (parse fl m choice line).after
  parse-IsReady m choice h =
      let (pool, e) = parse-after fl m h.decoded m.labels_pool choice line in
      record {
        valid = parse-IsValid fl m h.valid h.decoded choice line;
        decoded = subst (λ t. HasDecoded t.cfg) (sym e) h.decoded;
      }

  handle_from-HandlesAll :
      (choice : ℕ → ℕ) (i : ℕ) (ms : List Metric)
      → All IsReady ms
      → HandlesAll ms (handle_from fl choice i line ms)
  unfolding handle_from
  handle_from-HandlesAll choice i [] h = record {
    no_fault = refl;
    called = refl;
    failed = refl;
    ready = tt;
  }
  handle_from-HandlesAll choice i (m ∷ ms) (h, hs) =
      add_parsed-HandlesAll m (parse fl m (choice i) line) ms _ _
        (parse-Returns fl m h.valid h.decoded (choice i) line)
        (parse-alone fl m h.decoded m.labels_pool (choice i) line h.valid)
        (parse-IsReady m (choice i) h) (handle_from-HandlesAll choice (i + 1) ms hs)

  -- A line is handed to metrics that are well-formed with decoded replacements: each of them makes
  -- the calls that it would make as the only one, the errors are those of each alone, in the
  -- metrics' order and under their names, a metric that fails stops no other, nothing panics, and
  -- all the metrics are well-formed again.
  pub line_handler-HandlesAll :
      (choice : ℕ → ℕ) (ms : List Metric)
      → All IsReady ms
      → HandlesAll ms (line_handler fl choice line ms)
  unfolding line_handler
  line_handler-HandlesAll choice ms h = handle_from-HandlesAll choice 0 ms h
