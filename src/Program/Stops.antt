-- ===== src/Program/Stops.antt =====
-- The shutdown of run in cmd/access-log-exporter/main.go.
use access_log_exporter.Prelude.{
  ℕ, zero, suc, arith, ◌+◌, ◌<◌, ◌≡◌, refl, sym, ap, ◌∙◌, ◌⊎◌, inl, inr, Bool, true, false, Option,
  none, some, Bool-cases,
}
use access_log_exporter.Program.Start.{ReturnCode}
use access_log_exporter.Program.Run.{
  Cause, server_closed, failed, signal, http_returned, syslog_returned, cause_of, cancel, code_of,
}
use access_log_exporter.Program.Shutdown.{
  Main, waiting, syslog_closed, workers_awaited, server_shut_down, returned, Process, started, Step,
  syslog_returns, http_fails, http_closes, worker_stops, close_syslog, await_workers, return_code,
  shutting_down, begin_shutdown, end_shutdown, step, receive, Reach, here, next,
}

IsCancelled : Process → Type 0
IsCancelled p = (cause : Cause) × (p.cause ≡ some cause)

-- what holds of a process behind each step of the shutdown
Holds : Main → Process → Type 0
Holds waiting p = p.closes ≡ 0
Holds syslog_closed p = (p.closes ≡ 1) × IsCancelled p
Holds workers_awaited p = (p.closes ≡ 1) × (IsCancelled p × (p.workers ≡ 0))
Holds shutting_down p =
    (p.closes ≡ 1) × (IsCancelled p × ((p.workers ≡ 0) × (p.is_shut_down ≡ true)))
Holds server_shut_down p =
    (p.closes ≡ 1) × (IsCancelled p × ((p.workers ≡ 0) × (p.is_shut_down ≡ true)))
Holds (returned code) p =
    (p.closes ≡ 1)
    × ((p.workers ≡ 0)
        × ((p.http_runs ≡ false)
            × ((cause : Cause) × ((p.cause ≡ some cause) × (code ≡ code_of cause)))))

cancel-kept :
    (first later : Option Cause) (cause : Cause)
    → first ≡ some cause
    → cancel first later ≡ some cause
unfolding cancel
cancel-kept first later cause e = rw (e, cancel) refl

cancel-none : (first : Option Cause) → cancel first none ≡ first
unfolding cancel
cancel-none none = refl
cancel-none (some cause) = refl

-- a step that leaves the goroutine of `run` where it is keeps what holds there
Holds-kept :
    (main : Main) (p q : Process) (later : Option Cause)
    → Holds main p
    → q.closes ≡ p.closes
    → (p.workers ≡ 0 → q.workers ≡ 0)
    → (p.is_shut_down ≡ true → q.is_shut_down ≡ true)
    → (p.http_runs ≡ false → q.http_runs ≡ false)
    → q.cause ≡ cancel p.cause later
    → Holds main q
unfolding Holds IsCancelled
Holds-kept waiting p q later h c w s r e = cc
Holds-kept syslog_closed p q later (k, (x, y)) c w s r e =
    (c ∙ k, (x, e ∙ cancel-kept p.cause later x y))
Holds-kept workers_awaited p q later (k, ((x, y), z)) c w s r e =
    (c ∙ k, ((x, e ∙ cancel-kept p.cause later x y), w z))
Holds-kept shutting_down p q later (k, ((x, y), (z, u))) c w s r e =
    (c ∙ k, ((x, e ∙ cancel-kept p.cause later x y), (w z, s u)))
Holds-kept server_shut_down p q later (k, ((x, y), (z, u))) c w s r e =
    (c ∙ k, ((x, e ∙ cancel-kept p.cause later x y), (w z, s u)))
Holds-kept (returned code) p q later (k, (z, (v, (x, (y, t))))) c w s r e =
    (c ∙ k, (w z, (r v, (x, (e ∙ cancel-kept p.cause later x y, t)))))

Step-Holds : (p : Process) {q : Process} → Holds p.main p → Step p q → Holds q.main q
unfolding Holds IsCancelled
Step-Holds p h (syslog_returns b e) =
    Holds-kept p.main p _ (cause_of (syslog_returned b)) h refl (λ x. x) (λ x. x) (λ x. x) refl
Step-Holds p h (http_fails e) =
    Holds-kept p.main p _ (cause_of (http_returned failed)) h refl (λ x. x) (λ x. x) (λ x. refl)
      refl
Step-Holds p h (http_closes e s) =
    Holds-kept p.main p _ (cause_of (http_returned server_closed)) h refl (λ x. x) (λ x. x)
      (λ x. refl) refl
Step-Holds p h (worker_stops n cause e w) =
    Holds-kept p.main p _ none h refl (λ x. omega arith) (λ x. x) (λ x. x)
      (sym (cancel-none p.cause))
Step-Holds p h (close_syslog cause e c) =
    let closes : Holds waiting p = rw e at h in (ap suc closes, (cause, c))
Step-Holds p h (await_workers e w) = let (k, c) : Holds syslog_closed p = rw e at h in (k, (c, w))
Step-Holds p h (begin_shutdown e) =
    let (k, (c, w)) : Holds workers_awaited p = rw e at h in (k, (c, (w, refl)))
Step-Holds p h (end_shutdown e) = rw e at h
Step-Holds p h (return_code cause e r c) =
    let (k, (c', (w, s))) : Holds server_shut_down p = rw e at h in
    (k, (w, (r, (cause, (c, refl)))))

Reach-Holds : (workers : ℕ) {p : Process} → Reach (started workers) p → Holds p.main p
unfolding started Holds
Reach-Holds workers here = refl
Reach-Holds workers (next {t} r (step s)) = Step-Holds t (Reach-Holds workers r) s
Reach-Holds workers (next {t} r (receive sig e)) =
    Holds-kept t.main t _ (cause_of (signal sig)) (Reach-Holds workers r) refl (λ x. x) (λ x. x)
      (λ x. x) refl

abbrev remaining : Main → ℕ
remaining waiting = 5
remaining syslog_closed = 4
remaining workers_awaited = 3
remaining shutting_down = 2
remaining server_shut_down = 1
remaining (returned code) = 0

abbrev running : Bool → ℕ
running true = 1
running false = 0

-- how many steps are left at most
abbrev left : Process → ℕ
left p = remaining p.main + (p.workers + (running p.syslog_runs + running p.http_runs))

left-Step : (p q : Process) → Step p q → left q < left p
left-Step p q (syslog_returns b e) = rw e (omega arith)
left-Step p q (http_fails e) = rw e (omega arith)
left-Step p q (http_closes e s) = rw e (omega arith)
left-Step p q (worker_stops n cause e w) = rw w (omega arith)
left-Step p q (close_syslog cause e c) = rw e (omega arith)
left-Step p q (await_workers e w) = rw e (omega arith)
left-Step p q (begin_shutdown e) = rw e (omega arith)
left-Step p q (end_shutdown e) = rw e (omega arith)
left-Step p q (return_code cause e r c) = rw e (omega arith)

-- the first cause stays
cause-Step :
    (p : Process) {q : Process} (cause : Cause)
    → p.cause ≡ some cause
    → Step p q
    → q.cause ≡ some cause
cause-Step p cause h (syslog_returns b e) = cancel-kept p.cause _ cause h
cause-Step p cause h (http_fails e) = cancel-kept p.cause _ cause h
cause-Step p cause h (http_closes e s) = cancel-kept p.cause _ cause h
cause-Step p cause h (worker_stops n c e w) = h
cause-Step p cause h (close_syslog c e d) = h
cause-Step p cause h (await_workers e w) = h
cause-Step p cause h (begin_shutdown e) = h
cause-Step p cause h (end_shutdown e) = h
cause-Step p cause h (return_code c e r d) = h

-- `run` has returned the code, with the syslog server closed once, no worker and no HTTP server left
abbrev pub IsOver : ReturnCode → Process → Type 0
IsOver code p =
    (p.main ≡ returned code) × ((p.closes ≡ 1) × ((p.workers ≡ 0) × (p.http_runs ≡ false)))

abbrev pub CanStep : Process → Type 0
CanStep p = (q : Process) × Step p q

some-injective : {a b : Cause} → some a ≡ some b → a ≡ b
some-injective e = cc

advances :
    (p : Process) (cause : Cause) (main : Main) (workers : ℕ)
    → p.cause ≡ some cause
    → p.main ≡ main
    → p.workers ≡ workers
    → Holds main p
    → IsOver (code_of cause) p ⊎ CanStep p
unfolding Holds
advances p cause waiting workers c e w h = inr (_, close_syslog cause e c)
advances p cause syslog_closed zero c e w h = inr (_, await_workers e w)
advances p cause syslog_closed (suc n) c e w h = inr (_, worker_stops n cause c w)
advances p cause workers_awaited workers c e w h = inr (_, begin_shutdown e)
advances p cause shutting_down workers c e w h = inr (_, end_shutdown e)
advances p cause server_shut_down workers c e w (k, (d, (z, s))) = elim (Bool-cases p.http_runs) [
  | inl r ↦ inr (_, http_closes r s)
  | inr r ↦ inr (_, return_code cause e r c)
]
advances p cause (returned code) workers c e w (k, (z, (r, (first, (d, t))))) =
    inl (e ∙ ap returned (t ∙ ap code_of (some-injective (sym d ∙ c))), (k, (z, r)))

-- whichever goroutine steps first, `run` comes to return the code
pub data Ends (code : ReturnCode) : Process → Type 0 where
  over : {p : Process} → IsOver code p → Ends code p
  goes_on : {p : Process} → CanStep p → ((q : Process) → Step p q → Ends code q) → Ends code p

Ends-left :
    (n workers : ℕ) (p : Process) (cause : Cause)
    → Reach (started workers) p
    → p.cause ≡ some cause
    → left p < n
    → Ends (code_of cause) p
Ends-left zero workers p cause r c h = absurd (omega arith)
Ends-left (suc n) workers p cause r c h =
    elim (advances p cause p.main p.workers c refl refl (Reach-Holds workers r)) [
      | inl o ↦ over o
      | inr can ↦ goes_on can (λ q s.
          let less : left q < left p = left-Step p q s in
          Ends-left n workers q cause (next r (step s)) (cause-Step p cause c s) (omega arith))
    ]

-- The shutdown of `run`, with any number of workers, whatever the goroutines and the signals did
-- before: once there is a cause, in each order of the steps of the goroutines, receipts of further
-- signals left aside, `run` returns after finitely many, and then the code is the one of the first
-- cause, `syslogServer.Close` was called once, and no worker and no HTTP server is left.
pub stops :
    (workers : ℕ) (p : Process) (cause : Cause)
    → Reach (started workers) p
    → p.cause ≡ some cause
    → Ends (code_of cause) p
stops workers p cause r c = Ends-left (suc (left p)) workers p cause r c (omega arith)
