-- ===== src/Metric/Replacing.antt =====
-- Which replacement `valueReplacements` of internal/metric/metric.go makes.
use access_log_exporter.Prelude.{
  ◌≡◌, true, false, not, List, ◌∷◌, ◌++◌, Option, none, some, Bytes, All, codes, if◌then◌else◌,
}
use access_log_exporter.Strings.Search.{contains}
use access_log_exporter.Strings.Replace.{replace_all}
use access_log_exporter.Config.Types.{Regexp, StringReplacer, Replacement}

-- the replacer of a text, if there is one
abbrev pub replacer_of : Option Bytes → Bytes → Option StringReplacer
replacer_of none new = none
replacer_of (some old) new = some (record { old = old; new = new })

-- A replacement as `UnmarshalYAML` makes it: the replacer is the one of its text.
abbrev pub IsMade : Replacement → Type 0
IsMade r = r.string_replacer ≡ replacer_of r.string r.replacement

-- what the replacement makes of a value that it fits
pub data Rewrites (r : Replacement) (value : Bytes) : Bytes → Type 0 where
  by_string :
      (old : Bytes)
      → r.string ≡ some old
      → contains value old ≡ true
      → Rewrites r value (replace_all value old r.replacement)
  by_regexp :
      (regexp : Regexp)
      → r.regexp ≡ some regexp
      → regexp.match_string value ≡ true
      → Rewrites r value (
          if not (contains r.replacement (codes "$"))
          then regexp.replace_all_literal_string value r.replacement
          else regexp.replace_all_string value r.replacement)

-- there is no text, or it does not stand in the value
abbrev pub LacksText : Bytes → Option Bytes → Type 0
LacksText value none = Unit
LacksText value (some old) = contains value old ≡ false

-- there is no expression, or it does not match the value
abbrev pub Mismatches : Bytes → Option Regexp → Type 0
Mismatches value none = Unit
Mismatches value (some regexp) = regexp.match_string value ≡ false

-- neither its text stands in the value nor does its expression match
abbrev pub Leaves : Bytes → Replacement → Type 0
Leaves value r = LacksText value r.string × Mismatches value r.regexp

-- the first replacement that does not leave the value
pub record FirstFit (rs : List Replacement) (value out : Bytes) : Type 0 where
  pub before : List Replacement
  pub chosen : Replacement
  pub after : List Replacement
  pub splits : rs ≡ before ++ chosen ∷ after
  pub left : All (Leaves value) before
  pub rewrites : Rewrites chosen value out
