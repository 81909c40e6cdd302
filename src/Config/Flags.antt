-- ===== src/Config/Flags.antt =====
-- The flags that internal/config/flags.go declares: their names, types, targets and environment keys.
-- Package flag reads a value by the type of its flag; what the host gives is in `Host`.
use access_log_exporter.Prelude.{
  ℕ, ℤ, Bool, Option, none, some, Bytes, codes, Result, ok, err, panic,
}
use access_log_exporter.Config.Sections.{ParsedUrl, Config}
use access_log_exporter.Config.Lookup.{parse_bool}
use access_log_exporter.Config.Numbers.{parse_uint, atoi}
use access_log_exporter.Config.Literals.{parse_uint_literal, parse_int_literal, parse_level}
use access_log_exporter.Config.Url.{new_url}

-- What lies outside the program: `os.LookupEnv`, `url.Parse`, `time.ParseDuration`, and the content
-- of a file that can be opened, with what the yaml decoder makes of it and of a configuration.
pub data YamlError : Type 0 where
  end_of_file not_decoded : YamlError

pub record Host : Type 0 where
  pub lookup_env : Bytes → Option Bytes
  pub parse_url : Bytes → Option ParsedUrl
  pub parse_duration : Bytes → Option ℤ
  pub open_file : Bytes → Option Bytes
  pub decode : Bytes → Config → Result YamlError Config

pub data Flag : Type 0 where
  config version verify_config buffer_size worker preset log_format log_level nginx_scrape_url
        nginx_scrape_timeout debug_enable web_listen_address web_tls_cert_file web_tls_key_file
        syslog_listen_address :
      Flag

-- the type of a flag's variable
abbrev pub Value : Flag → Type 0
Value version = Bool
Value verify_config = Bool
Value debug_enable = Bool
Value buffer_size = ℕ
Value worker = ℤ
Value log_level = ℤ
Value nginx_scrape_timeout = ℤ
Value nginx_scrape_url = Option ParsedUrl
Value _ = Bytes

-- the configuration, and the variables of the two flags that are not in it
pub record Variables : Type 0 where
  pub conf : Config
  pub config_path : Bytes
  pub is_version : Bool

-- the variable of a flag
unfoldable pub value_of : (f : Flag) → Variables → Value f
value_of config v = v.config_path
value_of version v = v.is_version
value_of verify_config v = v.conf.verify_config
value_of buffer_size v = v.conf.buffer_size
value_of worker v = v.conf.worker_count
value_of preset v = v.conf.preset
value_of log_format v = v.conf.log.format
value_of log_level v = v.conf.log.level
value_of nginx_scrape_url v = v.conf.nginx.scrape_url
value_of nginx_scrape_timeout v = v.conf.nginx.scrape_timeout
value_of debug_enable v = v.conf.debug.enable
value_of web_listen_address v = v.conf.web.listen_address
value_of web_tls_cert_file v = v.conf.web.tls_cert_file
value_of web_tls_key_file v = v.conf.web.tls_key_file
value_of syslog_listen_address v = v.conf.syslog.listen_address

abbrev on : Variables → Config → Variables
on v c = record v { conf = c }

-- an assignment to it
unfoldable pub put : (f : Flag) → Value f → Variables → Variables
put config a v = record v { config_path = a }
put version a v = record v { is_version = a }
put verify_config a v = on v (record v.conf { verify_config = a })
put buffer_size a v = on v (record v.conf { buffer_size = a })
put worker a v = on v (record v.conf { worker_count = a })
put preset a v = on v (record v.conf { preset = a })
put log_format a v = on v (record v.conf { log = record v.conf.log { format = a } })
put log_level a v = on v (record v.conf { log = record v.conf.log { level = a } })
put nginx_scrape_url a v = on v (record v.conf { nginx = record v.conf.nginx { scrape_url = a } })
put nginx_scrape_timeout a v =
    on v (record v.conf { nginx = record v.conf.nginx { scrape_timeout = a } })
put debug_enable a v = on v (record v.conf { debug = record v.conf.debug { enable = a } })
put web_listen_address a v = on v (record v.conf { web = record v.conf.web { listen_address = a } })
put web_tls_cert_file a v = on v (record v.conf { web = record v.conf.web { tls_cert_file = a } })
put web_tls_key_file a v = on v (record v.conf { web = record v.conf.web { tls_key_file = a } })
put syslog_listen_address a v =
    on v (record v.conf { syslog = record v.conf.syslog { listen_address = a } })

-- `UnmarshalText` of a new `types.URL`
abbrev url_of : (Bytes → Option ParsedUrl) → Bytes → Option (Option ParsedUrl)
url_of parse text = elim (new_url parse (λ u. u.string) text) [
  | ok url ↦ some url
  | err e ↦ none
  | panic p ↦ none
]

-- `Set` of the flag's value: what it makes of a text, `none` for an error
unfoldable pub read : Host → (f : Flag) → Bytes → Option (Value f)
unfolding new_url
read host version s = parse_bool s
read host verify_config s = parse_bool s
read host debug_enable s = parse_bool s
read host buffer_size s = parse_uint_literal s
read host worker s = parse_int_literal s
read host log_level s = parse_level s
read host nginx_scrape_timeout s = host.parse_duration s
read host nginx_scrape_url s = url_of host.parse_url s
read host config s = some s
read host preset s = some s
read host log_format s = some s
read host web_listen_address s = some s
read host web_tls_cert_file s = some s
read host web_tls_key_file s = some s
read host syslog_listen_address s = some s

-- how `lookupEnvOrDefault` converts a text to the type of the flag
unfoldable pub read_env : Host → (f : Flag) → Bytes → Option (Value f)
unfolding new_url
read_env host version s = none
read_env host verify_config s = none
read_env host debug_enable s = parse_bool s
read_env host buffer_size s = parse_uint s
read_env host worker s = atoi s
read_env host log_level s = parse_level s
read_env host nginx_scrape_timeout s = host.parse_duration s
read_env host nginx_scrape_url s = url_of host.parse_url s
read_env host config s = some s
read_env host preset s = some s
read_env host log_format s = some s
read_env host web_listen_address s = some s
read_env host web_tls_cert_file s = some s
read_env host web_tls_key_file s = some s
read_env host syslog_listen_address s = some s

-- the names, as `flagSet` declares them
unfoldable pub name_of : Flag → Bytes
name_of config = codes "config"
name_of version = codes "version"
name_of verify_config = codes "verify-config"
name_of buffer_size = codes "buffer-size"
name_of worker = codes "worker"
name_of preset = codes "preset"
name_of log_format = codes "log.format"
name_of log_level = codes "log.level"
name_of nginx_scrape_url = codes "nginx.scrape-url"
name_of nginx_scrape_timeout = codes "nginx.scrape-timeout"
name_of debug_enable = codes "debug.enable"
name_of web_listen_address = codes "web.listen-address"
name_of web_tls_cert_file = codes "web.tls-cert-file"
name_of web_tls_key_file = codes "web.tls-key-file"
name_of syslog_listen_address = codes "syslog.listen-address"

-- the key under which `flagSet` looks up the default in the environment, if it does
unfoldable pub key_of : Flag → Option Bytes
unfolding name_of
key_of version = none
key_of verify_config = none
key_of buffer_size = some (codes "buffer_size")
key_of f = some (name_of f)
