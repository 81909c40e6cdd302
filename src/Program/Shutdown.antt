-- ===== src/Program/Shutdown.antt =====
-- The goroutines of run in cmd/access-log-exporter/main.go from the start of the HTTP server on, as a
-- system that steps: the loop with its shutdown, `syslogServer.Start`, the workers of the collector,
-- and the HTTP server. Which of them steps is left open, and the 10 seconds of `server.Shutdown` too.
use access_log_exporter.Prelude.{ℕ, suc, ◌≡◌, Bool, true, false, Option, none, some}
use access_log_exporter.Program.Start.{ReturnCode}
use access_log_exporter.Program.Run.{
  Signal, Cause, server_closed, failed, signal, http_returned, syslog_returned, cause_of, cancel,
  code_of,
}

-- where the goroutine of `run` is: in its `select`, or behind `syslogServer.Close`, behind
-- `prometheusCollector.Close`, in `server.Shutdown`, or behind it, where the deferred `wg.Wait` stands;
-- or it has returned
pub data Main : Type 0 where
  waiting syslog_closed workers_awaited shutting_down server_shut_down : Main
  returned : ReturnCode → Main

-- `closes` counts the calls of `syslogServer.Close`, which panics when it is called twice
pub record Process : Type 0 where
  pub main : Main
  pub cause : Option Cause
  pub syslog_runs : Bool
  pub closes : ℕ
  pub workers : ℕ
  pub is_shut_down : Bool
  pub http_runs : Bool

-- when the goroutines have been started
unfoldable pub started : ℕ → Process
started workers = record {
  main = waiting;
  cause = none;
  syslog_runs = true;
  closes = 0;
  workers = workers;
  is_shut_down = false;
  http_runs = true;
}

-- The steps of the program: the returns of the goroutines, and those of the shutdown. `ListenAndServe`
-- returns `ErrServerClosed` once `server.Shutdown` has begun, and never without an error.
pub data Step (s : Process) : Process → Type 0 where
  syslog_returns :
      (is_error : Bool)
      → s.syslog_runs ≡ true
      → Step s (record s {
        syslog_runs = false;
        cause = cancel s.cause (cause_of (syslog_returned is_error));
      })
  http_fails :
      s.http_runs ≡ true
      → Step s
          (record s { http_runs = false; cause = cancel s.cause (cause_of (http_returned failed)) })
  http_closes :
      s.http_runs ≡ true
      → s.is_shut_down ≡ true
      → Step s (record s {
        http_runs = false;
        cause = cancel s.cause (cause_of (http_returned server_closed));
      })
  worker_stops :
      (n : ℕ) (cause : Cause)
      → s.cause ≡ some cause
      → s.workers ≡ suc n
      → Step s (record s { workers = n })
  close_syslog :
      (cause : Cause)
      → s.main ≡ waiting
      → s.cause ≡ some cause
      → Step s (record s { main = syslog_closed; closes = suc s.closes })
  await_workers :
      s.main ≡ syslog_closed → s.workers ≡ 0 → Step s (record s { main = workers_awaited })
  begin_shutdown :
      s.main ≡ workers_awaited → Step s (record s { main = shutting_down; is_shut_down = true })
  end_shutdown : s.main ≡ shutting_down → Step s (record s { main = server_shut_down })
  return_code :
      (cause : Cause)
      → s.main ≡ server_shut_down
      → s.http_runs ≡ false
      → s.cause ≡ some cause
      → Step s (record s { main = returned (code_of cause) })

-- a step of the program, or a signal that the loop receives
pub data Move (s : Process) : Process → Type 0 where
  step : {t : Process} → Step s t → Move s t
  receive :
      (sig : Signal)
      → s.main ≡ waiting
      → Move s (record s { cause = cancel s.cause (cause_of (signal sig)) })

pub data Reach (s : Process) : Process → Type 0 where
  here : Reach s s
  next : {t u : Process} → Reach s t → Move t u → Reach s u
