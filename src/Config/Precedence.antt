-- ===== src/Config/Precedence.antt =====
-- Where New of internal/config/config.go takes the value of each flag from.
use access_log_exporter.Prelude.{
  ◌≡◌, ◌≢◌, refl, ◌∙◌, ap, Bool, true, false, List, ◌∷◌, ◌++◌, Option, none, some, Bytes, ok, All,
  Result,
}
use access_log_exporter.Config.Sections.{Config, defaults}
use access_log_exporter.Config.Lookup.{lookup_config_argument, lookup_version_or_help_argument}
use access_log_exporter.Config.Flags.{Host, Flag, version, Variables, value_of}
use access_log_exporter.Config.FlagSet.{all_flags, set_defaults, FlagError, parse_flags}
use access_log_exporter.Config.Load.{
  read_from_config_file, variables, unless_version, read_from_flag_and_environment, new,
}
use access_log_exporter.Config.Environment.{in_environment, default_of-or_else}
use access_log_exporter.Config.Variables.{IsKept, value_of-set_defaults, set_defaults-IsKept}
use access_log_exporter.Config.Command.{
  Setting, IsSetting, Stops, spell, chosen, or_else, parse_flags-spell,
}

-- the last setting on the command line, else the environment, else the configuration at hand
abbrev pub Precedes : Host → List Setting → Config → Variables → Type 0
Precedes host settings file v =
    (g : Flag)
    → value_of g v
      ≡ or_else (chosen host g settings)
          (or_else (in_environment host g) (value_of g (variables file)))

parse_flags-Precedes :
    (host : Host) (settings : List Setting) (rest : List Bytes) (file : Config)
    → All (IsSetting host) settings
    → Stops rest
    → (v : Variables) × (parse_flags host none
          (set_defaults host all_flags (variables file))
          (spell settings ++ rest)
        ≡ ok v)
      × Precedes host settings file v
      × IsKept (variables file) v
parse_flags-Precedes host settings rest file h stops =
    let start = set_defaults host all_flags (variables file) in
    let (v, p, q, (k, l)) = parse_flags-spell host settings rest start h stops in
    let (m, n) = set_defaults-IsKept host all_flags (variables file) in
    (
      v,
      p,
      (λ g.
          q g
          ∙ ap (or_else (chosen host g settings)) (
              value_of-set_defaults host g (variables file)
              ∙ default_of-or_else host g (variables file))),
      (k ∙ m, l ∙ n),
    )

version-chosen : (o : Option Bool) → o ≢ some true → ◌≡◌ {A = Bool} (or_else o false) false
version-chosen none ne = refl
version-chosen (some true) ne = absurd (ne refl)
version-chosen (some false) ne = refl

version-not_requested :
    (r : Result FlagError Variables) (v : Variables)
    → r ≡ ok v
    → value_of version v ≡ false
    → unless_version r ≡ ok v.conf
unfolding value_of unless_version
version-not_requested r v e t = rw (e, unless_version, t) refl

-- Where no argument asks for the version or the help, the file is decoded over the defaults and all
-- arguments up to the end of the flags are settings that can be read, `New` returns a configuration
-- in which every flag has the value of its last setting; without one, that of its environment
-- variable, as `in_environment` lists them, if it is set and converts; without that, the file's. The
-- variables are those of docs/Configuration.md, where it lists the flag, but for the buffer size,
-- which is taken from CONFIG_BUFFER_SIZE, and for verify-config, which has none; the version has
-- none either. The presets and the ConfigFile are those of the file.
pub new-Precedes :
    (host : Host) (program : Bytes) (settings : List Setting) (rest : List Bytes) (file : Config)
    → All (IsSetting host) settings
    → Stops rest
    → lookup_version_or_help_argument (program ∷ (spell settings ++ rest)) ≡ false
    → read_from_config_file host
        (lookup_config_argument host.lookup_env (program ∷ (spell settings ++ rest)))
        defaults
      ≡ ok file
    → chosen host version settings ≢ some true
    → (v : Variables) × (new host (program ∷ (spell settings ++ rest)) ≡ ok v.conf)
      × Precedes host settings file v
      × IsKept (variables file) v
unfolding new read_from_flag_and_environment in_environment value_of
new-Precedes host program settings rest file h stops quiet read ne =
    let (v, p, q, k) = parse_flags-Precedes host settings rest file h stops in
    (
      v,
      rw (quiet, read, new)
          (version-not_requested _ v p
            (q version ∙ version-chosen (chosen host version settings) ne)),
      q,
      k,
    )
