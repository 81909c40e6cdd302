-- ===== src/Program/Start.antt =====
-- initializeConfigAndLogger, setupConfiguration and setupLogger of cmd/access-log-exporter/main.go.
use access_log_exporter.Prelude.{
  ℤ, pos, negsuc, Bool, ◌||◌, List, Option, none, some, Bytes, codes, str_eq, if◌then◌else◌, Result,
  ok, err, panic,
}
use access_log_exporter.Config.Sections.{Config}
use access_log_exporter.Config.Validate.{Invalid, validate}
use access_log_exporter.Config.Flags.{Host}
use access_log_exporter.Config.FlagSet.{help_requested}
use access_log_exporter.Config.Load.{LoadError, version_requested, flag_error, new}

-- `ReturnCode` and its constants
abbrev pub ReturnCode : Type 0
ReturnCode = ℤ

abbrev pub return_code_no_error : ReturnCode
return_code_no_error = negsuc 1

abbrev pub return_code_reload : ReturnCode
return_code_reload = negsuc 0

abbrev pub return_code_ok : ReturnCode
return_code_ok = pos 0

abbrev pub return_code_error : ReturnCode
return_code_error = pos 1

-- an error of `setupConfiguration`, which wraps that of `config.New` or of `config.Validate`
pub data SetupError : Type 0 where
  load_error : LoadError → SetupError
  invalid_config : Invalid → SetupError

unfoldable pub validated : Result LoadError Config → Result SetupError Config
validated (ok conf) = elim (validate conf) [
  | ok _ ↦ ok conf
  | err e ↦ err (invalid_config e)
  | panic p ↦ panic p
]
validated (err e) = err (load_error e)
validated (panic p) = panic p

unfoldable pub setup_configuration : Host → List Bytes → Result SetupError Config
unfolding validated
setup_configuration host args = validated (new host args)

-- `setupLogger`: whether there is a logger
unfoldable pub setup_logger : Bytes → Bool
setup_logger format = str_eq format (codes "json") || str_eq format (codes "console")

-- behind `setupConfiguration`: `flag.ErrHelp` and `config.ErrVersion` end the program without an error
unfoldable pub initialize :
    Result SetupError Config → Result SetupError (Option Config × ReturnCode)
unfolding setup_logger
initialize (panic p) = panic p
initialize (err (load_error (flag_error help_requested))) = ok (none, return_code_ok)
initialize (err (load_error version_requested)) = ok (none, return_code_ok)
initialize (err _) = ok (none, return_code_error)
initialize (ok conf) =
    if setup_logger conf.log.format
    then ok (some conf, return_code_no_error)
    else ok (none, return_code_error)

unfoldable pub initialize_config_and_logger :
    Host → List Bytes → Result SetupError (Option Config × ReturnCode)
unfolding setup_configuration initialize
initialize_config_and_logger host args = initialize (setup_configuration host args)
