-- ===== src/Config/Types.antt =====
-- The configuration of a metric: internal/config/types.go. A map is the list of its pairs, a pointer
-- is an Option, and a slice that is compared with nil is an Option of a list.
use access_log_exporter.Prelude.{ℕ, Bool, List, Option, Bytes}
use access_log_exporter.Float.{Float64}

-- A compiled `*regexp.Regexp`, by the three methods that are called on it.
pub record Regexp : Type 0 where
  pub match_string : Bytes → Bool
  pub replace_all_string : Bytes → Bytes → Bytes
  pub replace_all_literal_string : Bytes → Bytes → Bytes

-- The `*strings.Replacer` of one pair of texts.
pub record StringReplacer : Type 0 where
  pub old : Bytes
  pub new : Bytes

pub record Replacement : Type 0 where
  pub string : Option Bytes
  pub regexp : Option Regexp
  pub string_replacer : Option StringReplacer
  pub replacement : Bytes

pub record Label : Type 0 where
  pub name : Bytes
  pub replacements : List Replacement
  pub line_index : ℕ
  pub user_agent : Bool

pub record Upstream : Type 0 where
  pub excludes : List Bytes
  pub addr_line_index : ℕ
  pub enabled : Bool
  pub label : Bool

pub record Math : Type 0 where
  pub enabled : Bool
  pub mul : Float64
  pub div : Float64

pub record MetricConfig : Type 0 where
  pub const_labels : List (Bytes × Bytes)
  pub value_index : Option ℕ
  pub name : Bytes
  pub type : Bytes
  pub help : Bytes
  pub buckets : List Float64
  pub labels : List Label
  pub replacements : Option (List Replacement)
  pub upstream : Upstream
  pub math : Math
