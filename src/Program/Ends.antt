-- ===== src/Program/Ends.antt =====
-- The return codes of run and execute of cmd/access-log-exporter/main.go.
use access_log_exporter.Prelude.{
  ℕ, pos, negsuc, ◌≡◌, ◌≢◌, refl, ◌⊎◌, inl, inr, true, false, List, [], ◌∷◌, ◌++◌, Option, none,
  some, Bytes, All, Result, ok, err, panic, Bool-cases,
}
use access_log_exporter.Config.Sections.{Config}
use access_log_exporter.Config.FlagSet.{help_requested}
use access_log_exporter.Config.Load.{version_requested, flag_error}
use access_log_exporter.Program.Start.{
  ReturnCode, return_code_reload, return_code_ok, return_code_error, SetupError, load_error,
  setup_configuration, setup_logger, initialize, initialize_config_and_logger,
}
use access_log_exporter.Program.Run.{
  Cause, canceled, reload, failure, sighup, interrupt, sigterm, sigusr1, no_error, server_closed,
  failed, Event, signal, http_returned, syslog_returned, done_received, cause_of, cancel, code_of,
  wait, Surroundings, run, is_reload, execute,
}

-- the events that do not end the program
abbrev pub IsQuiet : Event → Type 0
IsQuiet (signal s) = ⊥
IsQuiet (http_returned failed) = ⊥
IsQuiet (http_returned no_error) = Unit
IsQuiet (http_returned server_closed) = Unit
IsQuiet (syslog_returned b) = ⊥
IsQuiet done_received = Unit

-- the events that do, with the exit code for each
abbrev pub EndsWith : Event → ReturnCode → Type 0
EndsWith (signal sighup) code = code ≡ negsuc 0
EndsWith (signal interrupt) code = code ≡ pos 0
EndsWith (signal sigterm) code = code ≡ pos 0
EndsWith (signal sigusr1) code = code ≡ pos 0
EndsWith (http_returned failed) code = code ≡ pos 1
EndsWith (http_returned no_error) code = ⊥
EndsWith (http_returned server_closed) code = ⊥
EndsWith (syslog_returned true) code = code ≡ pos 1
EndsWith (syslog_returned false) code = code ≡ pos 0
EndsWith done_received code = ⊥

abbrev pub IsBefore : Event → Type 0
IsBefore event = event ≢ done_received

-- the codes that `run` returns
abbrev IsRunCode : ReturnCode → Type 0
IsRunCode code = (code ≡ return_code_ok) ⊎ (code ≡ return_code_error) ⊎ (code ≡ return_code_reload)

abbrev OfOption : (ReturnCode → Type 0) → Option ReturnCode → Type 0
OfOption P none = Unit
OfOption P (some code) = P code

abbrev OfResult : (ReturnCode → Type 0) → Result SetupError (Option ReturnCode) → Type 0
OfResult P (ok o) = OfOption P o
OfResult P (err e) = Unit
OfResult P (panic p) = Unit

wait-IsRunCode :
    (cause : Option Cause) (events : List Event) → OfOption IsRunCode (wait cause events)
unfolding wait code_of
wait-IsRunCode cause [] = tt
wait-IsRunCode none (done_received ∷ events) = wait-IsRunCode none events
wait-IsRunCode (some canceled) (done_received ∷ events) = inl refl
wait-IsRunCode (some reload) (done_received ∷ events) = inr (inr refl)
wait-IsRunCode (some failure) (done_received ∷ events) = inr (inl refl)
wait-IsRunCode cause (signal s ∷ events) =
    wait-IsRunCode (cancel cause (cause_of (signal s))) events
wait-IsRunCode cause (http_returned s ∷ events) =
    wait-IsRunCode (cancel cause (cause_of (http_returned s))) events
wait-IsRunCode cause (syslog_returned b ∷ events) =
    wait-IsRunCode (cancel cause (cause_of (syslog_returned b))) events

HasCode : Result SetupError (Option Config × ReturnCode) → Type 0
HasCode (ok (none, code)) = (code ≡ return_code_ok) ⊎ (code ≡ return_code_error)
HasCode _ = Unit

initialize-HasCode : (loaded : Result SetupError Config) → HasCode (initialize loaded)
unfolding initialize HasCode
initialize-HasCode (panic p) = tt
initialize-HasCode (err (load_error (flag_error help_requested))) = inl refl
initialize-HasCode (err (load_error version_requested)) = inl refl
initialize-HasCode (err _) = inr refl
initialize-HasCode (ok conf) = elim (Bool-cases (setup_logger conf.log.format)) [
  | inl e ↦ rw (e, initialize, HasCode) tt
  | inr e ↦ rw (e, initialize, HasCode) (inr refl)
]

started-IsRunCode :
    (args : List Bytes) (s : Surroundings) (i : Result SetupError (Option Config × ReturnCode))
    → initialize_config_and_logger s.host args ≡ i
    → HasCode i
    → OfResult IsRunCode (run args s)
unfolding run HasCode
started-IsRunCode args s (panic p) e h = rw (e, run) tt
started-IsRunCode args s (err x) e h = rw (e, run) tt
started-IsRunCode args s (ok (none, code)) e (inl h) = rw (e, run) (inl h)
started-IsRunCode args s (ok (none, code)) e (inr h) = rw (e, run) (inr (inl h))
started-IsRunCode args s (ok (some conf, code)) e h = elim (Bool-cases conf.verify_config) [
  | inl v ↦ rw (e, run, v) (inl refl)
  | inr v ↦ elim (Bool-cases s.syslog_is_new) [
    | inr n ↦ rw (e, run, v, n) (inr (inl refl))
    | inl n ↦ elim (Bool-cases s.collector_is_new) [
      | inr k ↦ rw (e, run, v, n, k) (inr (inl refl))
      | inl k ↦ rw (e, run, v, n, k) (wait-IsRunCode none s.events)
    ]
  ]
]

run-IsRunCode : (args : List Bytes) (s : Surroundings) → OfResult IsRunCode (run args s)
unfolding initialize_config_and_logger
run-IsRunCode args s =
    started-IsRunCode args s (initialize_config_and_logger s.host args) refl
      (initialize-HasCode (setup_configuration s.host args))

abbrev pub Reloads : List Bytes → Surroundings → Type 0
Reloads args s = run args s ≡ ok (some return_code_reload)

execute-Reloads :
    (args : List Bytes) (before rest : List Surroundings)
    → All (Reloads args) before
    → execute args (before ++ rest) ≡ execute args rest
unfolding execute is_reload
execute-Reloads args [] rest h = refl
execute-Reloads args (s ∷ before) rest (e, h) = rw (e, execute) (execute-Reloads args before rest h)

not_reload : {n : ℕ} (code : ReturnCode) → code ≡ pos n → is_reload code ≡ false
unfolding is_reload
not_reload code h = rw h refl

ends :
    (args : List Bytes) (s : Surroundings) (rest : List Surroundings) (code : ReturnCode)
    → run args s ≡ ok (some code)
    → code ≢ return_code_reload
    → IsRunCode code
    → (execute args (s ∷ rest) ≡ ok (some code))
      × ((code ≡ return_code_ok) ⊎ (code ≡ return_code_error))
unfolding execute is_reload
ends args s rest code e ne (inl h) = (rw (e, execute, not_reload code h) refl, inl h)
ends args s rest code e ne (inr (inl h)) = (rw (e, execute, not_reload code h) refl, inr h)
ends args s rest code e ne (inr (inr h)) = absurd (ne h)

-- `execute` calls `run` again as long as it returns the code of a reload; the first other code ends
-- the program with that code, which is the one of success or the one of an error and never the
-- internal one for no error.
pub execute_lem :
    (args : List Bytes) (before : List Surroundings) (s : Surroundings) (rest : List Surroundings)
    (code : ReturnCode)
    → All (Reloads args) before
    → run args s ≡ ok (some code)
    → code ≢ return_code_reload
    → (execute args (before ++ s ∷ rest) ≡ ok (some code))
      × ((code ≡ return_code_ok) ⊎ (code ≡ return_code_error))
execute_lem args before s rest code h e ne =
    rw (execute-Reloads args before (s ∷ rest) h)
      (ends args s rest code e ne (rw e at (run-IsRunCode args s)))
