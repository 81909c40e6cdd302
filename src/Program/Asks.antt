-- ===== src/Program/Asks.antt =====
-- A program of cmd/access-log-exporter/main.go that is started for its version or its help.
use access_log_exporter.Prelude.{◌≡◌, refl, List, ◌∷◌, ◌++◌, some, Bytes, codes, ok, err, All}
use access_log_exporter.Config.FlagSet.{help_requested, not_defined}
use access_log_exporter.Config.Load.{version_requested, flag_error, new}
use access_log_exporter.Config.Command.{Setting, IsSetting, Stops, spell}
use access_log_exporter.Config.Asked.{new-asks}
use access_log_exporter.Program.Start.{
  return_code_ok, return_code_error, validated, setup_configuration, initialize,
  initialize_config_and_logger,
}
use access_log_exporter.Program.Run.{Surroundings, run, is_reload, execute}

execute-help :
    (args : List Bytes) (s : Surroundings) (later : List Surroundings)
    → new s.host args ≡ err (flag_error help_requested)
    → execute args (s ∷ later) ≡ ok (some return_code_ok)
unfolding execute run is_reload initialize_config_and_logger setup_configuration validated
    initialize
execute-help args s later e = rw (e, execute) refl

execute-version :
    (args : List Bytes) (s : Surroundings) (later : List Surroundings)
    → new s.host args ≡ err version_requested
    → execute args (s ∷ later) ≡ ok (some return_code_ok)
unfolding execute run is_reload initialize_config_and_logger setup_configuration validated
    initialize
execute-version args s later e = rw (e, execute) refl

execute-not_defined :
    (args : List Bytes) (name : Bytes) (s : Surroundings) (later : List Surroundings)
    → new s.host args ≡ err (flag_error (not_defined name))
    → execute args (s ∷ later) ≡ ok (some return_code_error)
unfolding execute run is_reload initialize_config_and_logger setup_configuration validated
    initialize
execute-not_defined args name s later e = rw (e, execute) refl

-- Behind settings that can be read, and whatever files, environment and network the program meets,
-- it ends with the code of success for "-h", "--help" and "-help", and for "--version" before the
-- end of the flags. For "-v" it ends with the code of an error: the argument is taken for the
-- version when the file is skipped, but no flag has its name.
pub execute-asks :
    (program : Bytes) (settings : List Setting) (rest stop : List Bytes) (s : Surroundings)
    (later : List Surroundings)
    → All (IsSetting s.host) settings
    → Stops stop
    → let args : Bytes → List Bytes → List Bytes =
        λ arg rest. program ∷ (spell settings ++ arg ∷ rest) in
      (execute (args (codes "-h") rest) (s ∷ later) ≡ ok (some return_code_ok))
      × (execute (args (codes "--help") rest) (s ∷ later) ≡ ok (some return_code_ok))
      × (execute (args (codes "-help") rest) (s ∷ later) ≡ ok (some return_code_ok))
      × (execute (args (codes "--version") stop) (s ∷ later) ≡ ok (some return_code_ok))
      × (execute (args (codes "-v") rest) (s ∷ later) ≡ ok (some return_code_error))
execute-asks program settings rest stop s later h stops =
    let (short, long, single, version, v) = new-asks s.host program settings rest stop h stops in
    (
      execute-help _ s later short,
      execute-help _ s later long,
      execute-help _ s later single,
      execute-version _ s later version,
      execute-not_defined _ (codes "v") s later v,
    )
