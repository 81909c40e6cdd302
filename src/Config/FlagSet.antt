-- ===== src/Config/FlagSet.antt =====
-- flagSet of internal/config/flags.go, which gives every flag its default, and `Parse` of package
-- flag, which reads the arguments.
use access_log_exporter.Prelude.{
  Bool, true, false, ◌||◌, List, [], ◌∷◌, Option, none, some, Bytes, codes, str_eq, ◌==◌,
  if◌then◌else◌, Result, ok, err,
}
use access_log_exporter.Strings.Search.{cut}
use access_log_exporter.Config.Lookup.{lookup_env_or_default}
use access_log_exporter.Config.Flags.{
  Host, Flag, config, version, verify_config, buffer_size, worker, preset, log_format, log_level,
  nginx_scrape_url, nginx_scrape_timeout, debug_enable, web_listen_address, web_tls_cert_file,
  web_tls_key_file, syslog_listen_address, Value, Variables, value_of, put, read, read_env, name_of,
  key_of,
}

-- in the order in which they are declared
abbrev pub all_flags : List Flag
all_flags =
    config ∷ version ∷ verify_config ∷ buffer_size ∷ worker ∷ preset ∷ log_format ∷ log_level
    ∷ nginx_scrape_url ∷ nginx_scrape_timeout ∷ debug_enable ∷ web_listen_address
    ∷ web_tls_cert_file ∷ web_tls_key_file ∷ syslog_listen_address ∷ []

-- the default of a flag: the environment's, or the value that its variable has
unfoldable pub default_of : Host → (f : Flag) → Variables → Value f
unfolding lookup_env_or_default
default_of host f v = elim (key_of f) [
  | none ↦ value_of f v
  | some key ↦ lookup_env_or_default (read_env host f) host.lookup_env key (value_of f v)
]

-- `flagSet`: each declaration assigns the default to the variable
unfoldable pub set_defaults : Host → List Flag → Variables → Variables
set_defaults host [] v = v
set_defaults host (f ∷ flags) v = set_defaults host flags (put f (default_of host f v) v)

-- the errors of `Parse`, with the name of the flag where they have one
pub data FlagError : Type 0 where
  help_requested : FlagError
  bad_syntax : Bytes → FlagError
  not_defined : Bytes → FlagError
  needs_argument : Flag → FlagError
  invalid_value : Flag → Bytes → FlagError

-- `f.formal[name]`
unfoldable pub find_flag : List Flag → Bytes → Option Flag
find_flag [] name = none
find_flag (f ∷ flags) name = if str_eq (name_of f) name then some f else find_flag flags name

-- `IsBoolFlag`
unfoldable pub is_bool_flag : Flag → Bool
is_bool_flag version = true
is_bool_flag verify_config = true
is_bool_flag debug_enable = true
is_bool_flag _ = false

-- how `parseOne` reads an argument: it ends the flags, it is malformed, or it names a flag, with a
-- value if there is a "=" that is not the first character
pub data Argument : Type 0 where
  ends : Argument
  malformed : Argument
  names : Bytes → Option Bytes → Argument

unfoldable pub read_name : Bytes → Argument
read_name [] = malformed
read_name (c ∷ s) = elim (c == b'-' || c == b'=') [
  | true ↦ malformed
  | false ↦ elim (cut s b'=') [
    | none ↦ names (c ∷ s) none
    | some (name, value) ↦ names (c ∷ name) (some value)
  ]
]

unfoldable pub read_argument : Bytes → Argument
unfolding read_name
read_argument [] = ends
read_argument (a ∷ []) = ends
read_argument (a ∷ b ∷ s) = elim (a == b'-') [
  | false ↦ ends
  | true ↦ elim (b == b'-') [
    | false ↦ read_name (b ∷ s)
    | true ↦ elim s [ [] ↦ ends | c ∷ s' ↦ read_name (c ∷ s') ]
  ]
]

-- a name that is no flag
unfoldable pub unknown_flag : Bytes → FlagError
unknown_flag name =
    if str_eq name (codes "help") || str_eq name (codes "h")
    then help_requested
    else not_defined name

-- The loop of `Parse`. A flag that waits for its value is handed to the next round.
unfoldable pub parse_flags :
    Host → Option Flag → Variables → List Bytes → Result FlagError Variables
unfolding read_argument unknown_flag find_flag is_bool_flag
parse_flags host none v [] = ok v
parse_flags host (some f) v [] = err (needs_argument f)
parse_flags host (some f) v (value ∷ args) = elim (read host f value) [
  | none ↦ err (invalid_value f value)
  | some a ↦ parse_flags host none (put f a v) args
]
parse_flags host none v (arg ∷ args) = elim (read_argument arg) [
  | ends ↦ ok v
  | malformed ↦ err (bad_syntax arg)
  | names name given ↦ elim (find_flag all_flags name) [
    | none ↦ err (unknown_flag name)
    | some f ↦ elim given [
      | some value ↦ elim (read host f value) [
        | none ↦ err (invalid_value f value)
        | some a ↦ parse_flags host none (put f a v) args
      ]
      | none ↦ elim (is_bool_flag f) [
        | false ↦ parse_flags host (some f) v args
        | true ↦ elim (read host f (codes "true")) [
          | none ↦ err (invalid_value f (codes "true"))
          | some a ↦ parse_flags host none (put f a v) args
        ]
      ]
    ]
  ]
]
