-- ===== src/Program/Run.antt =====
-- run and execute of cmd/access-log-exporter/main.go. The surroundings give what the constructors
-- return and what happens to the running program, in its order.
use access_log_exporter.Prelude.{
  ℕ, negsuc, Bool, true, false, List, [], ◌∷◌, Option, none, some, Bytes, Result, ok, err, panic,
}
use access_log_exporter.Config.Flags.{Host}
use access_log_exporter.Program.Start.{
  ReturnCode, return_code_reload, return_code_ok, return_code_error, SetupError,
  initialize_config_and_logger,
}

pub data Signal : Type 0 where
  sighup interrupt sigterm sigusr1 : Signal

-- why the context is cancelled: `context.Canceled`, `ErrReload`, or another error
pub data Cause : Type 0 where
  canceled reload failure : Cause

-- how `ListenAndServe` returns
pub data Served : Type 0 where
  no_error server_closed failed : Served

-- what happens: `termCh` is received from; the HTTP server or `syslogServer.Start` returns, the latter
-- with an error or not; `ctx.Done()` is received from
pub data Event : Type 0 where
  signal : Signal → Event
  http_returned : Served → Event
  syslog_returned : (is_error : Bool) → Event
  done_received : Event

-- what `cancel` is called with at the event, if it is called
unfoldable pub cause_of : Event → Option Cause
cause_of (signal sighup) = some reload
cause_of (signal _) = some canceled
cause_of (http_returned failed) = some failure
cause_of (http_returned _) = none
cause_of (syslog_returned true) = some failure
cause_of (syslog_returned false) = some canceled
cause_of done_received = none

-- `cancel` of `context.WithCancelCause`: the first cause stays
unfoldable pub cancel : Option Cause → Option Cause → Option Cause
cancel (some first) later = some first
cancel none later = later

-- behind the shutdown, by `context.Cause(ctx)`
unfoldable pub code_of : Cause → ReturnCode
code_of canceled = return_code_ok
code_of reload = return_code_reload
code_of failure = return_code_error

-- The `for` with its `select`: `ctx.Done()` is ready only once there is a cause. `none` is a program
-- that still waits.
unfoldable pub wait : Option Cause → List Event → Option ReturnCode
unfolding cause_of cancel code_of
wait cause [] = none
wait cause (done_received ∷ events) = elim cause [
  | none ↦ wait none events
  | some first ↦ some (code_of first)
]
wait cause (signal s ∷ events) = wait (cancel cause (cause_of (signal s))) events
wait cause (http_returned s ∷ events) = wait (cancel cause (cause_of (http_returned s))) events
wait cause (syslog_returned e ∷ events) = wait (cancel cause (cause_of (syslog_returned e))) events

-- what one call of `run` meets
pub record Surroundings : Type 0 where
  pub host : Host
  pub syslog_is_new : Bool
  pub collector_is_new : Bool
  pub events : List Event

-- `run` on the arguments, where `none` is a program that still waits
unfoldable pub run : List Bytes → Surroundings → Result SetupError (Option ReturnCode)
unfolding wait
run args s = elim (initialize_config_and_logger s.host args) [
  | panic p ↦ panic p
  | err e ↦ err e
  | ok (none, code) ↦ ok (some code)
  | ok (some conf, code) ↦ elim conf.verify_config [
    | true ↦ ok (some return_code_ok)
    | false ↦ elim s.syslog_is_new [
      | false ↦ ok (some return_code_error)
      | true ↦ elim s.collector_is_new [
        | false ↦ ok (some return_code_error)
        | true ↦ ok (wait none s.events)
      ]
    ]
  ]
]

unfoldable pub is_reload : ReturnCode → Bool
is_reload (negsuc ℕ.zero) = true
is_reload _ = false

-- `execute`, over what its calls of `run` meet
unfoldable pub execute : List Bytes → List Surroundings → Result SetupError (Option ReturnCode)
unfolding run is_reload
execute args [] = ok none
execute args (s ∷ rest) = elim (run args s) [
  | panic p ↦ panic p
  | err e ↦ err e
  | ok none ↦ ok none
  | ok (some code) ↦ elim (is_reload code) [ true ↦ execute args rest | false ↦ ok (some code) ]
]
