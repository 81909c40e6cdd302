-- ===== src/Config/Lookup.antt =====
-- The lookups of internal/config/config.go: the file name, the flags that skip the file, and the
-- environment variables. `env` is `os.LookupEnv`.
use access_log_exporter.Prelude.{
  ◌-◌, ◌≡◌, refl, Bool, true, false, ◌&&◌, ◌||◌, List, [], ◌∷◌, ◌++◌, Option, none, some, Bytes,
  map, codes, str_eq, leb, if◌then◌else◌,
}
use access_log_exporter.Strings.Search.{has_prefix, cut_prefix}
use access_log_exporter.Strings.Replace.{replace_all}

-- `strings.ToUpper`, of the ASCII letters; the names of the flags have no other
unfoldable pub to_upper : Bytes → Bytes
to_upper s = map (λ c. if leb b'a' c && leb c b'z' then c - 32 else c) s

-- `getEnvironmentVariableByFlagName`
unfoldable pub environment_variable : Bytes → Bytes
unfolding to_upper
environment_variable flag_name =
    if str_eq flag_name (codes "config")
    then codes "CONFIG_FILE"
    else codes "CONFIG_"
      ++ replace_all (replace_all (to_upper flag_name) (codes ".") (codes "_")) (codes "-")
          (codes "__")

-- `lookupEnvOrDefault`: `parse` is the conversion of the type at hand, with `none` for an error. (Its
-- panic is for a type that has no conversion; the flags have none.)
unfoldable pub lookup_env_or_default {ℓ} :
    {A : Type ℓ} → (Bytes → Option A) → (Bytes → Option Bytes) → Bytes → A → A
lookup_env_or_default parse env key default = elim (env (environment_variable key)) [
  | none ↦ default
  | some value ↦ elim (parse value) [ none ↦ default | some parsed ↦ parsed ]
]

-- `strconv.ParseBool`
unfoldable pub parse_bool : Bytes → Option Bool
parse_bool s =
    if str_eq s (codes "1")
      || str_eq s (codes "t")
      || str_eq s (codes "T")
      || str_eq s (codes "true")
      || str_eq s (codes "TRUE")
      || str_eq s (codes "True")
    then some true
    else if str_eq s (codes "0")
        || str_eq s (codes "f")
        || str_eq s (codes "F")
        || str_eq s (codes "false")
        || str_eq s (codes "FALSE")
        || str_eq s (codes "False")
    then some false
    else none

-- behind the loop of `lookupConfigArgument`
unfoldable pub default_config_path : (Bytes → Option Bytes) → Bytes
unfolding lookup_env_or_default
default_config_path env =
    let path : Bytes = elim (env (codes "KO_DATA_PATH")) [
      | none ↦ codes "config.yaml"
      | some ko_data_path ↦ ko_data_path ++ codes "/config.yaml"
    ] in
    lookup_env_or_default some env (codes "config") path

-- `lookupConfigArgument`
unfoldable pub lookup_config_argument : (Bytes → Option Bytes) → List Bytes → Bytes
lookup_config_argument env [] = default_config_path env
lookup_config_argument env (arg ∷ args) = elim (has_prefix arg (codes "--config")) [
  | false ↦ lookup_config_argument env args
  | true ↦ elim (cut_prefix arg (codes "--config=")) [
    | some config_path ↦ config_path
    | none ↦ elim args [ [] ↦ default_config_path env | next ∷ _ ↦ next ]
  ]
]

-- one argument of `lookupVersionOrHelpArgument`
unfoldable pub is_version_or_help : Bytes → Bool
is_version_or_help arg =
    str_eq arg (codes "-h")
    || str_eq arg (codes "--help")
    || str_eq arg (codes "-help")
    || str_eq arg (codes "-v")
    || str_eq arg (codes "--version")

unfoldable pub lookup_version_or_help_argument : List Bytes → Bool
lookup_version_or_help_argument [] = false
lookup_version_or_help_argument (arg ∷ args) =
    if is_version_or_help arg then true else lookup_version_or_help_argument args

test_environment_variable :
    environment_variable (codes "nginx.scrape-url") ≡ codes "CONFIG_NGINX_SCRAPE__URL"
unfolding environment_variable str_eq replace_all
test_environment_variable = refl
