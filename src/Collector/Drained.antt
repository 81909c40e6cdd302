-- ===== src/Collector/Drained.antt =====
-- The workers of internal/collector/line.go once they have returned.
use mathlib.Core.Option.{some-injective}
use access_log_exporter.Prelude.{
  ℕ, zero, suc, ◌≡◌, ◌≢◌, refl, ap, ◌⊎◌, inl, inr, true, false, List, [], ◌∷◌, some, get_elem?, set,
  replicate, All, arith,
}
use access_log_exporter.Strings.Laws.{count}
use access_log_exporter.Float.{FloatOps}
use access_log_exporter.Collector.Build.{Collector}
use access_log_exporter.Collector.Every.{IsReady}
use access_log_exporter.Collector.Workers.{
  Worker, waiting, busy, stopped, System, start, receive, handle, Step, send, close, cancel,
  take_message, handle_message, stop_closed, stop_cancelled, Reach, here, next,
}
use access_log_exporter.Collector.Conserved.{AllStopped, buffers, held-stopped, Reach-Conserves}

-- the reason that a worker may return for
abbrev HasEnded : System → Type 0
HasEnded s = (s.cancelled ≡ true) ⊎ ((s.closed ≡ true) × (s.queue ≡ []))

abbrev StopsWell : System → Type 0
StopsWell s = (i : ℕ) → get_elem? s.workers i ≡ some stopped → HasEnded s

get_elem?-set_cases :
    (ws : List Worker) (i j : ℕ) (w : Worker)
    → get_elem? (set ws i w) j ≡ some stopped
    → (w ≡ stopped) ⊎ (get_elem? ws j ≡ some stopped)
get_elem?-set_cases [] i j w h = inr h
get_elem?-set_cases (x ∷ ws) zero zero w h = inl (some-injective w stopped h)
get_elem?-set_cases (x ∷ ws) zero (suc j) w h = inr h
get_elem?-set_cases (x ∷ ws) (suc i) zero w h = inr h
get_elem?-set_cases (x ∷ ws) (suc i) (suc j) w h = get_elem?-set_cases ws i j w h

replicate-waiting : (n i : ℕ) → get_elem? (replicate n (waiting [])) i ≢ some stopped
replicate-waiting zero i h = cc
replicate-waiting (suc n) zero h = cc
replicate-waiting (suc n) (suc i) h = replicate-waiting n i h

module _ (fl : FloatOps) where
  Step-StopsWell : {s t : System} → Step fl s t → StopsWell s → StopsWell t
  unfolding receive handle
  Step-StopsWell (send msg open_) h = λ i e. ground (arith, h i e)
  Step-StopsWell close h = λ i e. ground (arith, h i e)
  Step-StopsWell cancel h = λ i e. inl refl
  Step-StopsWell {s} (take_message k now fields msg rest w q) h =
      λ i e. ground (arith, get_elem?-set_cases s.workers k i (busy fields msg) e, h i)
  Step-StopsWell {s} (handle_message k fields msg choice w) h =
      λ i e. ground (arith, get_elem?-set_cases s.workers k i (waiting _) e, h i)
  Step-StopsWell (stop_closed k fields w closed q) h = λ i e. inr (closed, q)
  Step-StopsWell (stop_cancelled k fields w cancelled) h = λ i e. inl cancelled

  Reach-StopsWell : {s t : System} → Reach fl s t → StopsWell s → StopsWell t
  Reach-StopsWell here h = h
  Reach-StopsWell (next r step) h = Step-StopsWell step (Reach-StopsWell r h)

  first_stopped : (ws : List Worker) → ws ≢ [] → AllStopped ws → get_elem? ws 0 ≡ some stopped
  first_stopped [] h _ = absurd (h refl)
  first_stopped (w ∷ ws) _ (e, _) = rw e

  -- When, in a state reached from a new collector of well-formed metrics, there is a worker, all the
  -- workers have returned and the context was not cancelled, then the channel is empty and every
  -- buffer has been released just as often as it was sent.
  pub Reach-drained :
      (c : Collector) (n : ℕ) {s : System}
      → c.log_parse_errors ≡ 0
      → All IsReady c.metrics
      → Reach fl (start c n) s
      → s.workers ≢ []
      → AllStopped s.workers
      → s.cancelled ≡ false
      → (s.queue ≡ []) × ((b : ℕ) → count b s.released ≡ count b s.sent)
  Reach-drained c n {s} none_yet ready r some_worker stopped_all running =
      let kept = Reach-Conserves fl c n none_yet ready r in
      let well = Reach-StopsWell r (unfold start in λ i e. absurd (replicate-waiting n i e)) in
      let empty = ended (well 0 (first_stopped s.workers some_worker stopped_all)) in
      (
        empty,
        λ b. omega (
          arith,
          kept.conserved b,
          held-stopped b s.workers stopped_all,
          ap (λ q. count b (buffers q)) empty,
        ),
      )
    where
      ended : HasEnded s → s.queue ≡ []
      ended (inl e) = ground (arith, running)
      ended (inr (_, e)) = e
