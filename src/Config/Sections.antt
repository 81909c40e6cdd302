-- ===== src/Config/Sections.antt =====
-- The sections of the configuration, Config itself and Defaults: internal/config/types.go and
-- defaults.go. A duration is its nanoseconds, a log level its number, a preset the list of its metrics.
use access_log_exporter.Prelude.{ℕ, ℤ, pos, Bool, false, List, [], none, Bytes, codes, Option}
use access_log_exporter.Config.Types.{MetricConfig}

-- A parsed URL, by the one method that is called on it.
pub record ParsedUrl : Type 0 where
  pub string : Bytes

pub record Log : Type 0 where
  pub format : Bytes
  pub level : ℤ

pub record Syslog : Type 0 where
  pub listen_address : Bytes

pub record Debug : Type 0 where
  pub enable : Bool

pub record Web : Type 0 where
  pub listen_address : Bytes
  pub tls_cert_file : Bytes
  pub tls_key_file : Bytes

-- `types.URL` embeds a pointer
pub record Nginx : Type 0 where
  pub scrape_url : Option ParsedUrl
  pub scrape_timeout : ℤ

pub record Config : Type 0 where
  pub presets : List (Bytes × List MetricConfig)
  pub nginx : Nginx
  pub web : Web
  pub config_file : Bytes
  pub syslog : Syslog
  pub preset : Bytes
  pub log : Log
  pub worker_count : ℤ
  pub buffer_size : ℕ
  pub debug : Debug
  pub verify_config : Bool

-- `Defaults`: `slog.LevelInfo` is 0, and `time.Second` is in nanoseconds
abbrev pub defaults : Config
defaults = record {
  presets = [];
  nginx = record { scrape_url = none; scrape_timeout = pos 1000000000 };
  web = record { listen_address = codes ":4040"; tls_cert_file = []; tls_key_file = [] };
  config_file = codes "config.yaml";
  syslog = record { listen_address = codes "udp://[::]:8514" };
  preset = codes "simple";
  log = record { format = codes "console"; level = pos 0 };
  worker_count = pos 0;
  buffer_size = 1000;
  debug = record { enable = false };
  verify_config = false;
}
