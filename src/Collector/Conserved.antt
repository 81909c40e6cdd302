-- ===== src/Collector/Conserved.antt =====
-- The messages and buffers that the workers of internal/collector/line.go handle.
use mathlib.Core.Option.{some-injective}
use access_log_exporter.Prelude.{
  ℕ, zero, suc, ◌+◌, ◌≤◌, ◌≡◌, refl, ap, List, [], ◌∷◌, ◌++◌, some, Bytes, length, length-append,
  get_elem?, set, replicate, All, arith,
}
use access_log_exporter.Strings.Laws.{count}
use access_log_exporter.Float.{FloatOps}
use access_log_exporter.Collector.Build.{Collector}
use access_log_exporter.Collector.Fields.{split_line_fields}
use access_log_exporter.Collector.Every.{IsReady, line_handler-HandlesAll}
use access_log_exporter.Collector.Workers.{
  Message, Worker, waiting, busy, stopped, System, start, receive, handle, Step, send, close,
  cancel, take_message, handle_message, stop_closed, stop_cancelled, Reach, here, next,
}

pub count-append : (b : ℕ) (xs ys : List ℕ) → count b (xs ++ ys) ≡ count b xs + count b ys
count-append b [] ys = omega arith
count-append b (x ∷ xs) ys = ground (arith, count-append b xs ys)

abbrev pub buffers : List Message → List ℕ
buffers [] = []
buffers (msg ∷ msgs) = msg.buffer ∷ buffers msgs

buffers-append : (xs ys : List Message) → buffers (xs ++ ys) ≡ buffers xs ++ buffers ys
buffers-append [] ys = refl
buffers-append (x ∷ xs) ys = ap (λ l. x.buffer ∷ l) (buffers-append xs ys)

-- how often a worker, and all of them, hold a buffer
abbrev holds : ℕ → Worker → ℕ
holds b (busy fields msg) = count b (msg.buffer ∷ [])
holds b _ = 0

abbrev pub held : ℕ → List Worker → ℕ
held b [] = 0
held b (w ∷ ws) = holds b w + held b ws

held-set :
    (b : ℕ) (ws : List Worker) (i : ℕ) (old w : Worker)
    → get_elem? ws i ≡ some old
    → held b (set ws i w) + holds b old ≡ held b ws + holds b w
held-set b [] i old w h = cc
held-set b (x ∷ ws) zero old w h = omega (arith, ap (holds b) (some-injective x old h))
held-set b (x ∷ ws) (suc i) old w h = omega (arith, held-set b ws i old w h)

-- Each buffer that was sent waits in the channel, is held by a worker, or has been released: as often
-- in all as it was sent. The errors counted are at most the messages handled, and the metrics are
-- well-formed.
pub record Conserves (s : System) : Type 0 where
  pub conserved :
      (b : ℕ) → count b s.sent ≡ count b (buffers s.queue) + held b s.workers + count b s.released
  pub errors : s.collector.log_parse_errors ≤ length s.released
  pub ready : All IsReady s.collector.metrics

held-replicate : (b n : ℕ) → held b (replicate n (waiting [])) ≡ 0
held-replicate b zero = refl
held-replicate b (suc n) = omega (arith, held-replicate b n)

start-Conserves :
    (c : Collector) (n : ℕ) → c.log_parse_errors ≡ 0 → All IsReady c.metrics → Conserves (start c n)
unfolding start
start-Conserves c n h ready = record {
  conserved = λ b. omega (arith, held-replicate b n);
  errors = omega arith;
  ready = ready;
}

module _ (b : ℕ) (s : System) (c : Conserves s) where
  send_conserved :
      (msg : Message)
      → count b (s.sent ++ msg.buffer ∷ [])
        ≡ count b (buffers (s.queue ++ msg ∷ [])) + held b s.workers + count b s.released
  send_conserved msg = rw buffers-append (
      omega (
        arith,
        c.conserved b,
        count-append b s.sent (msg.buffer ∷ []),
        count-append b (buffers s.queue) (msg.buffer ∷ []),
      ))

  take_conserved :
      (i : ℕ) (fields : List Bytes) (msg : Message) (rest : List Message)
      → get_elem? s.workers i ≡ some (waiting fields)
      → s.queue ≡ msg ∷ rest
      → count b s.sent
        ≡ count b (buffers rest) + held b (set s.workers i (busy fields msg)) + count b s.released
  take_conserved i fields msg rest w q = omega (
    arith,
    c.conserved b,
    held-set b s.workers i (waiting fields) (busy fields msg) w,
    ap (λ l. count b (buffers l)) q,
    count-append b (msg.buffer ∷ []) (buffers rest),
  )

  handle_conserved :
      (i : ℕ) (fields fields' : List Bytes) (msg : Message)
      → get_elem? s.workers i ≡ some (busy fields msg)
      → count b s.sent
        ≡ count b (buffers s.queue)
          + held b (set s.workers i (waiting fields'))
          + count b (s.released ++ msg.buffer ∷ [])
  handle_conserved i fields fields' msg w = omega (
    arith,
    c.conserved b,
    held-set b s.workers i (busy fields msg) (waiting fields') w,
    count-append b s.released (msg.buffer ∷ []),
  )

  stop_conserved :
      (i : ℕ) (fields : List Bytes)
      → get_elem? s.workers i ≡ some (waiting fields)
      → count b s.sent
        ≡ count b (buffers s.queue) + held b (set s.workers i stopped) + count b s.released
  stop_conserved i fields w =
      omega (arith, c.conserved b, held-set b s.workers i (waiting fields) stopped w)

module _ (fl : FloatOps) where
  handle-Conserves :
      (s : System) (i : ℕ) (fields : List Bytes) (msg : Message) (choice : ℕ → ℕ)
      → get_elem? s.workers i ≡ some (busy fields msg)
      → Conserves s
      → Conserves (handle fl choice s i fields msg)
  unfolding handle
  handle-Conserves s i fields msg choice w c =
      let split = split_line_fields fields msg.line in
      let all = line_handler-HandlesAll fl split choice s.collector.metrics c.ready in
      record {
        conserved = λ b. handle_conserved b s c i fields split msg w;
        errors = ground (arith, c.errors, length-append s.released (msg.buffer ∷ []));
        ready = all.ready;
      }

  Step-Conserves : {s t : System} → Step fl s t → Conserves s → Conserves t
  unfolding receive
  Step-Conserves {s} (send msg open_) c = record {
    conserved = λ b. send_conserved b s c msg;
    errors = c.errors;
    ready = c.ready;
  }
  Step-Conserves close c = record { conserved = c.conserved; errors = c.errors; ready = c.ready }
  Step-Conserves cancel c = record { conserved = c.conserved; errors = c.errors; ready = c.ready }
  Step-Conserves {s} (take_message i now fields msg rest w q) c = record {
    conserved = λ b. take_conserved b s c i fields msg rest w q;
    errors = c.errors;
    ready = c.ready;
  }
  Step-Conserves {s} (handle_message i fields msg choice w) c =
      handle-Conserves s i fields msg choice w c
  Step-Conserves {s} (stop_closed i fields w closed q) c = record {
    conserved = λ b. stop_conserved b s c i fields w;
    errors = c.errors;
    ready = c.ready;
  }
  Step-Conserves {s} (stop_cancelled i fields w cancelled) c = record {
    conserved = λ b. stop_conserved b s c i fields w;
    errors = c.errors;
    ready = c.ready;
  }

  Reach-keeps : {s t : System} → Reach fl s t → Conserves s → Conserves t
  Reach-keeps here c = c
  Reach-keeps (next r step) c = Step-Conserves step (Reach-keeps r c)

  -- In every state that the senders and any number of workers can reach from a new collector of
  -- well-formed metrics, however their steps interleave: each buffer that was sent is in the
  -- channel, held by a worker, or released, in all just as often as it was sent; the errors counted
  -- are at most the messages released; and all metrics are well-formed.
  pub Reach-Conserves :
      (c : Collector) (n : ℕ) {s : System}
      → c.log_parse_errors ≡ 0
      → All IsReady c.metrics
      → Reach fl (start c n) s
      → Conserves s
  Reach-Conserves c n none_yet ready r = Reach-keeps r (start-Conserves c n none_yet ready)

abbrev pub AllStopped : List Worker → Type 0
AllStopped = All (λ w. w ≡ stopped)

pub held-stopped : (b : ℕ) (ws : List Worker) → AllStopped ws → held b ws ≡ 0
held-stopped b [] h = refl
held-stopped b (w ∷ ws) (h, hs) = rw h (omega (arith, held-stopped b ws hs))
