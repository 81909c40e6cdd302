-- ===== src/Config/Load.antt =====
-- New, ReadFromConfigFile and ReadFromFlagAndEnvironment of internal/config/config.go.
use access_log_exporter.Prelude.{
  true, false, List, [], ◌∷◌, none, some, Bytes, codes, Result, ok, err, panic, index_out_of_range,
}
use access_log_exporter.Config.Sections.{Config, defaults}
use access_log_exporter.Config.Lookup.{lookup_config_argument, lookup_version_or_help_argument}
use access_log_exporter.Config.Flags.{Host, end_of_file, not_decoded, Variables}
use access_log_exporter.Config.FlagSet.{all_flags, set_defaults, FlagError, parse_flags}

-- `help_requested` in `flag_error` is `flag.ErrHelp`, `version_requested` is `ErrVersion`
pub data LoadError : Type 0 where
  open_failed empty_config_file decode_failed version_requested : LoadError
  flag_error : FlagError → LoadError

-- `ReadFromConfigFile`, with `empty_config_file` for an error that wraps `io.EOF`: `New` puts
-- `ErrEmptyConfigFile` in its place
unfoldable pub read_from_config_file : Host → Bytes → Config → Result LoadError Config
read_from_config_file host path c = elim (host.open_file path) [
  | none ↦ err open_failed
  | some content ↦ elim (host.decode content c) [
    | ok decoded ↦ ok decoded
    | err end_of_file ↦ err empty_config_file
    | err not_decoded ↦ err decode_failed
    | panic p ↦ panic p
  ]
]

-- the variables before `flagSet` has declared the flags
abbrev pub variables : Config → Variables
variables c = record { conf = c; config_path = codes "config.yaml"; is_version = false }

-- behind `flagSet.Parse`
unfoldable pub unless_version : Result FlagError Variables → Result LoadError Config
unless_version (ok v) = elim v.is_version [ true ↦ err version_requested | false ↦ ok v.conf ]
unless_version (err e) = err (flag_error e)
unless_version (panic p) = panic p

-- `args[1:]` of no arguments panics
unfoldable pub read_from_flag_and_environment : Host → List Bytes → Config → Result LoadError Config
unfolding unless_version
read_from_flag_and_environment host [] c = panic index_out_of_range
read_from_flag_and_environment host (program ∷ args) c =
    unless_version (parse_flags host none (set_defaults host all_flags (variables c)) args)

unfoldable pub new : Host → List Bytes → Result LoadError Config
unfolding read_from_config_file read_from_flag_and_environment
new host args = elim (lookup_version_or_help_argument args) [
  | true ↦ read_from_flag_and_environment host args defaults
  | false ↦
      elim (read_from_config_file host (lookup_config_argument host.lookup_env args) defaults) [
        | ok c ↦ read_from_flag_and_environment host args c
        | err e ↦ err e
        | panic p ↦ panic p
      ]
]
