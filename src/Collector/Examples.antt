-- ===== src/Collector/Examples.antt =====
-- The theorems on the collector, at a run of one worker and one message.
use access_log_exporter.Prelude.{
  suc, ℕ, ◌≡◌, ◌⊎◌, refl, true, Bool, false, map, str_eq, [], ◌∷◌, none, some, codes, All, length,
  ok, err,
}
use access_log_exporter.Strings.Split.{join}
use access_log_exporter.Strings.Laws.{Lacks, count}
use access_log_exporter.Metric.LineExamples.{counting_metric, counting_valid, line_of_two}
use access_log_exporter.Metric.Examples.{digit_floats, upstream_config, plain_parser}
use access_log_exporter.Collector.Fields.{split_line_fields, split_line_fields_lem}
use access_log_exporter.Collector.Build.{Collector, BuildError, new_collector}
use access_log_exporter.Collector.Started.{Starts, FailsAt, new_collector_total}
use access_log_exporter.Collector.Handle.{line_handler}
use access_log_exporter.Collector.Every.{IsReady, HandlesAll, line_handler-HandlesAll}
use access_log_exporter.Collector.Workers.{
  Message, stopped, System, start, receive, handle, send, close, take_message, handle_message,
  stop_closed, Reach, here, next,
}
use access_log_exporter.Collector.Conserved.{Conserves, Reach-Conserves}
use access_log_exporter.Metric.New.{new}
use access_log_exporter.Metric.Types.{Vec}
use access_log_exporter.Collector.Describe.{parse_error_desc, last_received_desc, describe, collect}
use access_log_exporter.Collector.Described.{configured}
use access_log_exporter.Collector.Collected.{IsDescribed, Reach-IsDescribed}
use access_log_exporter.Collector.Drained.{Reach-drained}

split_line_fields_lem_example :
    (join (split_line_fields (codes "old" ∷ []) (codes "a\tb")) b'\t' ≡ codes "a\tb")
    × All (Lacks b'\t') (split_line_fields (codes "old" ∷ []) (codes "a\tb"))
    × (length (split_line_fields (codes "old" ∷ []) (codes "a\tb"))
        ≡ suc (count b'\t' (codes "a\tb")))
split_line_fields_lem_example = split_line_fields_lem (codes "old" ∷ []) (codes "a\tb")

new_collector_total_example :
    ((c : Collector) × (warn : Bool) × (new_collector [] (some plain_parser) (upstream_config ∷ [])
        ≡ ok (c, warn))
      × Starts [] plain_parser (upstream_config ∷ []) c)
    ⊎ ((e : BuildError) × (new_collector [] (some plain_parser) (upstream_config ∷ []) ≡ err e)
        × FailsAt [] plain_parser (upstream_config ∷ []) e)
new_collector_total_example = new_collector_total [] plain_parser (upstream_config ∷ [])

abbrev ready : All IsReady (counting_metric ∷ [])
ready = (
  record { valid = counting_valid; decoded = record { of_value = tt; of_labels = (tt, tt) } },
  tt,
)

line_handler-HandlesAll_example :
    HandlesAll digit_floats line_of_two
      (counting_metric ∷ [])
      (line_handler digit_floats (λ i. 0) line_of_two (counting_metric ∷ []))
line_handler-HandlesAll_example =
    line_handler-HandlesAll digit_floats line_of_two (λ i. 0) (counting_metric ∷ []) ready

abbrev one_collector : Collector
one_collector = record {
  log_parse_errors = 0;
  log_last_received = none;
  metrics = counting_metric ∷ [];
}

abbrev one_message : Message
one_message = record { buffer = 5; line = codes "h\t7" }

-- the states of the run: the message is sent, the channel closed, the message taken and handled, and
-- the worker returns
abbrev begun : System
unfolding start
begun = start one_collector 1

abbrev sent_one : System
unfolding start
sent_one = record begun { queue = one_message ∷ []; sent = 5 ∷ [] }

abbrev closed_one : System
unfolding start
closed_one = record sent_one { closed = true }

abbrev taken : System
unfolding start receive
taken = receive closed_one 0 42 [] one_message []

abbrev handled : System
unfolding start receive handle
handled = handle digit_floats (λ i. 0) taken 0 [] one_message

abbrev ended : System
unfolding start receive handle
ended = record handled { workers = stopped ∷ [] }

run_of_one : Reach digit_floats (start one_collector 1) ended
unfolding start receive handle
run_of_one =
    next
      (next
        (next (next (next here (send one_message refl)) close)
          (take_message 0 42 [] one_message [] refl refl))
        (handle_message 0 [] one_message (λ i. 0) refl))
      (stop_closed 0 (split_line_fields [] (codes "h\t7")) refl refl refl)

Reach-Conserves_example : Conserves ended
Reach-Conserves_example = Reach-Conserves digit_floats one_collector 1 refl ready run_of_one

Reach-drained_example : (ended.queue ≡ []) × ((b : ℕ) → count b ended.released ≡ count b ended.sent)
unfolding start receive handle
Reach-drained_example =
    Reach-drained digit_floats one_collector 1 refl ready run_of_one (λ e. cc) (refl, tt) refl

one_built :
    new_collector [] (some plain_parser) (counting_metric.cfg ∷ []) ≡ ok (one_collector, false)
unfolding new_collector new str_eq
one_built = refl

Reach-IsDescribed_example :
    (describe ended.collector
      ≡ parse_error_desc ∷ last_received_desc ∷ map configured (counting_metric.cfg ∷ []))
    × All
        (IsDescribed (λ (vec : Vec). codes "child" ∷ []) (describe ended.collector))
        (collect (λ (vec : Vec). codes "child" ∷ []) ended.collector)
Reach-IsDescribed_example =
    Reach-IsDescribed (λ (vec : Vec). codes "child" ∷ []) digit_floats [] plain_parser
      (counting_metric.cfg ∷ []) one_collector false 1 one_built run_of_one
