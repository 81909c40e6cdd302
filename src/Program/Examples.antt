-- ===== src/Program/Examples.antt =====
-- The theorems on the program, at a run that is reloaded and then ended.
use access_log_exporter.Prelude.{
  ◌≡◌, ◌≢◌, refl, true, false, List, [], ◌∷◌, ◌++◌, none, some, Bytes, codes, pos, ok, ◌⊎◌, str_eq,
}
use access_log_exporter.Strings.Search.{has_prefix, cut_prefix}
use access_log_exporter.Strings.Replace.{replace_all}
use access_log_exporter.Config.Sections.{Config, defaults}
use access_log_exporter.Config.Lookup.{
  environment_variable, lookup_env_or_default, parse_bool, default_config_path,
  lookup_config_argument, is_version_or_help, lookup_version_or_help_argument,
}
use access_log_exporter.Config.Url.{is_empty_url}
use access_log_exporter.Config.Validate.{validate, validate_tls, find_preset}
use access_log_exporter.Config.Flags.{Host, debug_enable, key_of, value_of, put, read}
use access_log_exporter.Config.FlagSet.{default_of, set_defaults, is_bool_flag, parse_flags}
use access_log_exporter.Config.Load.{read_from_config_file, new}
use access_log_exporter.Config.Command.{bare, spell}
use access_log_exporter.Program.Start.{
  return_code_ok, return_code_error, setup_configuration, setup_logger, initialize,
  initialize_config_and_logger,
}
use access_log_exporter.Program.Run.{
  sighup, sigterm, failure, Event, signal, done_received, cause_of, cancel, code_of, wait,
  Surroundings, run, execute,
}
use access_log_exporter.Program.Server.{
  health, metrics, ends_in_slash, redirected, is_get, serve, serves_tls, go_collector,
  build_info_collector, process_collector, version_collector, exporter, setup_prometheus_registry,
}
use access_log_exporter.Program.Shutdown.{
  Process, started, syslog_returns, step, receive, here, next,
}
use access_log_exporter.Program.Stops.{Ends, stops}
use access_log_exporter.Program.Ends.{execute_lem}
use access_log_exporter.Program.Served.{serve-plain, setup_configuration-Servable}
use access_log_exporter.Program.Asks.{execute-asks}

-- a host with one file, which gives a preset and the format of the log
abbrev plain_host : Host
plain_host = record {
  lookup_env = λ name. none;
  parse_url = λ s. none;
  parse_duration = λ s. none;
  open_file = λ path. some [];
  decode = λ content c. ok (record c {
    presets = (codes "simple", []) ∷ [];
    log = record { format = codes "json"; level = pos 0 };
  });
}

abbrev meets : List Event → Surroundings
meets events = record {
  host = plain_host;
  syslog_is_new = true;
  collector_is_new = true;
  events = events;
}

abbrev plain_args : List Bytes
plain_args = codes "exporter" ∷ []

abbrev plain_conf : Config
plain_conf = record defaults {
  presets = (codes "simple", []) ∷ [];
  log = record { format = codes "json"; level = pos 0 };
}

plain-setup : setup_configuration plain_host plain_args ≡ ok plain_conf
unfolding setup_configuration new read_from_config_file lookup_version_or_help_argument
    is_version_or_help lookup_config_argument default_config_path parse_flags set_defaults
    default_of key_of value_of put lookup_env_or_default environment_variable replace_all str_eq
    has_prefix validate validate_tls find_preset
plain-setup = refl

plain-run : (events : List Event) → run plain_args (meets events) ≡ ok (wait none events)
unfolding run initialize_config_and_logger initialize setup_logger str_eq
plain-run events = rw (plain-setup, run) refl

execute_lem_example :
    (execute plain_args (
        meets (signal sighup ∷ done_received ∷ []) ∷ []
        ++ meets (signal sigterm ∷ done_received ∷ []) ∷ [])
      ≡ ok (some return_code_ok))
    × ((return_code_ok ≡ return_code_ok) ⊎ (return_code_ok ≡ return_code_error))
unfolding wait cause_of cancel code_of
execute_lem_example =
    execute_lem plain_args (meets (signal sighup ∷ done_received ∷ []) ∷ [])
      (meets (signal sigterm ∷ done_received ∷ [])) [] return_code_ok
      (plain-run (signal sighup ∷ done_received ∷ []), tt)
      (plain-run (signal sigterm ∷ done_received ∷ [])) (λ e. cc)

execute-asks_example :
    let args : Bytes → List Bytes → List Bytes =
      λ arg rest. codes "exporter" ∷ (spell (bare true debug_enable ∷ []) ++ arg ∷ rest) in
    let later : List Surroundings = meets [] ∷ [] in
    (execute (args (codes "-h") []) later ≡ ok (some return_code_ok))
    × (execute (args (codes "--help") []) later ≡ ok (some return_code_ok))
    × (execute (args (codes "-help") []) later ≡ ok (some return_code_ok))
    × (execute (args (codes "--version") []) later ≡ ok (some return_code_ok))
    × (execute (args (codes "-v") []) later ≡ ok (some return_code_error))
unfolding is_bool_flag read parse_bool str_eq
execute-asks_example =
    execute-asks (codes "exporter") (bare true debug_enable ∷ []) [] [] (meets []) []
      ((refl, (true, refl)), tt) tt

serve-plain_example :
    (is_get (codes "HEAD") ≡ true)
    × (((codes "/metrics" ≡ codes "/health") × (metrics ≡ health))
        ⊎ ((codes "/metrics" ≡ codes "/metrics") × (metrics ≡ metrics)))
unfolding serve ends_in_slash str_eq
serve-plain_example = serve-plain plain_conf (codes "HEAD") (codes "/metrics") metrics refl refl

test_servable :
    (find_preset plain_conf.presets plain_conf.preset ≢ none)
    × (((serves_tls plain_conf ≡ true)
          × (plain_conf.web.tls_cert_file ≢ [])
          × (plain_conf.web.tls_key_file ≢ []))
        ⊎ ((serves_tls plain_conf ≡ false)
            × (plain_conf.web.tls_cert_file ≡ [])
            × (plain_conf.web.tls_key_file ≡ [])))
test_servable = setup_configuration-Servable plain_host plain_args plain_conf plain-setup

-- with the profiling, another path leads to its index
test_debug :
    serve
      (record plain_conf { debug = record { enable = true } })
      (codes "GET")
      (codes "/debug/pprof")
    ≡ redirected (codes "/debug/pprof/")
unfolding serve ends_in_slash str_eq has_prefix cut_prefix
test_debug = refl

test_registry :
    setup_prometheus_registry (λ s. none) plain_conf
    ≡ go_collector ∷ build_info_collector ∷ process_collector ∷ version_collector ∷ exporter ∷ []
unfolding setup_prometheus_registry is_empty_url
test_registry = refl

-- two workers, after the syslog server has failed and a SIGHUP has come
abbrev failing : Process
failing = record (started 2) { syslog_runs = false; cause = some failure }

stops_example : Ends return_code_error failing
unfolding started cause_of cancel code_of
stops_example =
    stops 2 failing failure
      (next (next here (step (syslog_returns true refl))) (receive sighup refl)) refl
