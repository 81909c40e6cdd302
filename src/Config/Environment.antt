-- ===== src/Config/Environment.antt =====
-- What the environment variables say of the flags, with the names of the variables written out, and the
-- defaults that flagSet of internal/config/flags.go takes from them.
use access_log_exporter.Prelude.{
  ◌≡◌, refl, ◌∙◌, ap, fun_ext, inl, inr, [], ◌∷◌, Option, none, some, Bytes, codes, Option-cases,
  is_empty, str_eq, if◌then◌else◌,
}
use access_log_exporter.Config.Sections.{ParsedUrl}
use access_log_exporter.Strings.Replace.{replace_all}
use access_log_exporter.Config.Lookup.{
  environment_variable, lookup_env_or_default, parse_bool, to_upper,
}
use access_log_exporter.Config.Numbers.{parse_uint, atoi}
use access_log_exporter.Config.Literals.{parse_level}
use access_log_exporter.Config.Url.{new_url}
use access_log_exporter.Config.Flags.{
  Host, Flag, config, buffer_size, worker, preset, log_format, log_level, nginx_scrape_url,
  nginx_scrape_timeout, debug_enable, web_listen_address, web_tls_cert_file, web_tls_key_file,
  syslog_listen_address, version, verify_config, Value, Variables, value_of, read_env, key_of,
  name_of,
}
use access_log_exporter.Config.FlagSet.{default_of}
use access_log_exporter.Config.Command.{or_else}

-- the value of a variable that is set and converts
abbrev in_variable : {A : Type 0} → Host → Bytes → (Bytes → Option A) → Option A
in_variable host name convert = elim (host.lookup_env name) [
  | none ↦ none
  | some text ↦ convert text
]

-- a text that is not empty and parses
abbrev parsed_url : Host → Bytes → Option (Option ParsedUrl)
parsed_url host text =
    if is_empty text
    then none
    else elim (host.parse_url text) [ none ↦ none | some url ↦ some (some url) ]

-- The variables are those of docs/Configuration.md, where it lists the flag, but for two flags: it
-- gives CONFIG_BUFFER__SIZE for "buffer-size" and CONFIG_VERIFY__CONFIG for "verify-config".
unfoldable pub in_environment : Host → (g : Flag) → Option (Value g)
in_environment host version = none
in_environment host verify_config = none
in_environment host config = in_variable host (codes "CONFIG_FILE") some
in_environment host buffer_size = in_variable host (codes "CONFIG_BUFFER_SIZE") parse_uint
in_environment host worker = in_variable host (codes "CONFIG_WORKER") atoi
in_environment host preset = in_variable host (codes "CONFIG_PRESET") some
in_environment host log_format = in_variable host (codes "CONFIG_LOG_FORMAT") some
in_environment host log_level = in_variable host (codes "CONFIG_LOG_LEVEL") parse_level
in_environment host nginx_scrape_url =
    in_variable host (codes "CONFIG_NGINX_SCRAPE__URL") (parsed_url host)
in_environment host nginx_scrape_timeout =
    in_variable host (codes "CONFIG_NGINX_SCRAPE__TIMEOUT") host.parse_duration
in_environment host debug_enable = in_variable host (codes "CONFIG_DEBUG_ENABLE") parse_bool
in_environment host web_listen_address = in_variable host (codes "CONFIG_WEB_LISTEN__ADDRESS") some
in_environment host web_tls_cert_file = in_variable host (codes "CONFIG_WEB_TLS__CERT__FILE") some
in_environment host web_tls_key_file = in_variable host (codes "CONFIG_WEB_TLS__KEY__FILE") some
in_environment host syslog_listen_address =
    in_variable host (codes "CONFIG_SYSLOG_LISTEN__ADDRESS") some

converted : {A : Type 0} (o : Option A) (a : A) → elim o [ none ↦ a | some b ↦ b ] ≡ or_else o a
converted none a = refl
converted (some b) a = refl

lookup-or_else :
    {A : Type 0} (parse : Bytes → Option A) (env : Bytes → Option Bytes) (key : Bytes) (default : A)
    → lookup_env_or_default parse env key default
      ≡ or_else
          (elim (env (environment_variable key)) [ none ↦ none | some text ↦ parse text ])
          default
unfolding lookup_env_or_default
lookup-or_else parse env key default = elim (Option-cases (env (environment_variable key))) [
  | inl e ↦ rw (e, lookup_env_or_default) refl
  | inr (text, e) ↦ rw (e, lookup_env_or_default) (converted (parse text) default)
]

read_env-url :
    (host : Host) (text : Bytes) → read_env host nginx_scrape_url text ≡ parsed_url host text
unfolding read_env new_url
read_env-url host [] = refl
read_env-url host (c ∷ s) = elim (Option-cases (host.parse_url (c ∷ s))) [
  | inl e ↦ rw (e, new_url) refl
  | inr (url, e) ↦ rw (e, new_url) refl
]

-- the default that a flag gets
pub default_of-or_else :
    (host : Host) (g : Flag) (v : Variables)
    → default_of host g v ≡ or_else (in_environment host g) (value_of g v)
unfolding default_of in_environment key_of name_of value_of read_env environment_variable to_upper
    replace_all str_eq new_url
default_of-or_else host version v = refl
default_of-or_else host verify_config v = refl
default_of-or_else host config v =
    lookup-or_else (read_env host config) host.lookup_env (codes "config") (value_of config v)
default_of-or_else host buffer_size v =
    lookup-or_else (read_env host buffer_size) host.lookup_env (codes "buffer_size")
      (value_of buffer_size v)
default_of-or_else host worker v =
    lookup-or_else (read_env host worker) host.lookup_env (codes "worker") (value_of worker v)
default_of-or_else host preset v =
    lookup-or_else (read_env host preset) host.lookup_env (codes "preset") (value_of preset v)
default_of-or_else host log_format v =
    lookup-or_else (read_env host log_format) host.lookup_env (codes "log.format")
      (value_of log_format v)
default_of-or_else host log_level v =
    lookup-or_else (read_env host log_level) host.lookup_env (codes "log.level")
      (value_of log_level v)
default_of-or_else host nginx_scrape_url v =
    lookup-or_else (read_env host nginx_scrape_url) host.lookup_env (codes "nginx.scrape-url")
      (value_of nginx_scrape_url v)
    ∙ ap
        (λ convert.
          or_else (in_variable host (codes "CONFIG_NGINX_SCRAPE__URL") convert)
            (value_of nginx_scrape_url v))
        (fun_ext (read_env-url host))
default_of-or_else host nginx_scrape_timeout v =
    lookup-or_else (read_env host nginx_scrape_timeout) host.lookup_env
      (codes "nginx.scrape-timeout") (value_of nginx_scrape_timeout v)
default_of-or_else host debug_enable v =
    lookup-or_else (read_env host debug_enable) host.lookup_env (codes "debug.enable")
      (value_of debug_enable v)
default_of-or_else host web_listen_address v =
    lookup-or_else (read_env host web_listen_address) host.lookup_env (codes "web.listen-address")
      (value_of web_listen_address v)
default_of-or_else host web_tls_cert_file v =
    lookup-or_else (read_env host web_tls_cert_file) host.lookup_env (codes "web.tls-cert-file")
      (value_of web_tls_cert_file v)
default_of-or_else host web_tls_key_file v =
    lookup-or_else (read_env host web_tls_key_file) host.lookup_env (codes "web.tls-key-file")
      (value_of web_tls_key_file v)
default_of-or_else host syslog_listen_address v =
    lookup-or_else (read_env host syslog_listen_address) host.lookup_env
      (codes "syslog.listen-address") (value_of syslog_listen_address v)
