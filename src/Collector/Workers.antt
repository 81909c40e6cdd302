-- ===== src/Collector/Workers.antt =====
-- The workers of internal/collector/line.go (`lineHandlerWorkers`, `lineHandlerWorker`) on the message
-- channel, as a system that steps. A step is what one goroutine does between two points where it can
-- wait: a worker takes a message, or handles the one that it has, or returns. Which goroutine steps,
-- and which case of a `select` is taken when several are ready, is left open.
use access_log_exporter.Prelude.{
  ℕ, suc, ℤ, pos, ◌≡◌, Bool, true, false, List, [], ◌∷◌, ◌++◌, some, Bytes, get_elem?, set,
  replicate, is_empty, if◌then◌else◌,
}
use access_log_exporter.Float.{FloatOps}
use access_log_exporter.Collector.Build.{Collector}
use access_log_exporter.Collector.Fields.{split_line_fields}
use access_log_exporter.Collector.Handle.{Handled, line_handler}

-- A message of the syslog server: the number of its buffer, and its text.
pub record Message : Type 0 where
  pub buffer : ℕ
  pub line : Bytes

-- A worker, with the slice `fields` that it uses again for each message.
pub data Worker : Type 0 where
  waiting : List Bytes → Worker
  busy : List Bytes → Message → Worker
  stopped : Worker

-- `released` lists the buffers that `Release` has put back, and `sent` all that were sent.
pub record System : Type 0 where
  pub collector : Collector
  pub workers : List Worker
  pub queue : List Message
  pub closed : Bool
  pub cancelled : Bool
  pub sent : List ℕ
  pub released : List ℕ

-- the number of workers: `workerCount`, or the number of processors if it is not positive
unfoldable pub worker_count : ℕ → ℤ → ℕ
worker_count num_cpu (pos (suc n)) = suc n
worker_count num_cpu _ = num_cpu

-- the state when the workers have been started
unfoldable pub start : Collector → ℕ → System
start c n = record {
  collector = c;
  workers = replicate n (waiting []);
  queue = [];
  closed = false;
  cancelled = false;
  sent = [];
  released = [];
}

-- the case of a message: the time of its receipt is set
unfoldable pub receive : System → ℕ → ℕ → List Bytes → Message → List Message → System
receive s i now fields msg rest = record s {
  collector = record s.collector { log_last_received = some now };
  workers = set s.workers i (busy fields msg);
  queue = rest;
}

abbrev count_failed : Handled → ℕ → ℕ
count_failed h n = if is_empty h.errs then n else suc n

-- the rest of that case: the fields, the metrics, the counter of errors, and the release
unfoldable pub handle : FloatOps → (ℕ → ℕ) → System → ℕ → List Bytes → Message → System
handle fl choice s i buffer msg =
    let fields = split_line_fields buffer msg.line in
    let h = line_handler fl choice fields s.collector.metrics in
    record s {
      collector = record s.collector {
        log_parse_errors = count_failed h s.collector.log_parse_errors;
        metrics = h.metrics;
      };
      workers = set s.workers i (waiting fields);
      released = s.released ++ msg.buffer ∷ [];
    }

module _ (fl : FloatOps) where
  pub data Step (s : System) : System → Type 0 where
    send :
        (msg : Message)
        → s.closed ≡ false
        → Step s (record s { queue = s.queue ++ msg ∷ []; sent = s.sent ++ msg.buffer ∷ [] })
    close : Step s (record s { closed = true })
    cancel : Step s (record s { cancelled = true })
    take_message :
        (i now : ℕ) (fields : List Bytes) (msg : Message) (rest : List Message)
        → get_elem? s.workers i ≡ some (waiting fields)
        → s.queue ≡ msg ∷ rest
        → Step s (receive s i now fields msg rest)
    handle_message :
        (i : ℕ) (fields : List Bytes) (msg : Message) (choice : ℕ → ℕ)
        → get_elem? s.workers i ≡ some (busy fields msg)
        → Step s (handle fl choice s i fields msg)
    stop_closed :
        (i : ℕ) (fields : List Bytes)
        → get_elem? s.workers i ≡ some (waiting fields)
        → s.closed ≡ true
        → s.queue ≡ []
        → Step s (record s { workers = set s.workers i stopped })
    stop_cancelled :
        (i : ℕ) (fields : List Bytes)
        → get_elem? s.workers i ≡ some (waiting fields)
        → s.cancelled ≡ true
        → Step s (record s { workers = set s.workers i stopped })

  pub data Reach (s : System) : System → Type 0 where
    here : Reach s s
    next : {t u : System} → Reach s t → Step t u → Reach s u
