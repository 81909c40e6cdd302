-- ===== src/Metric/Replace.antt =====
-- `valueReplacements` of internal/metric/metric.go.
use access_log_exporter.Prelude.{
  not, List, [], ◌∷◌, Option, none, some, Bytes, codes, if◌then◌else◌, Result, ok, err, panic,
  nil_dereference, ◌>>=◌,
}
use access_log_exporter.Strings.Search.{contains}
use access_log_exporter.Strings.Replace.{replace_all}
use access_log_exporter.Config.Types.{Replacement}
use access_log_exporter.Metric.Types.{Error}

-- the first `if` of a round: `none` when its condition fails
unfoldable pub apply_string : Replacement → Bytes → Result Error (Option Bytes)
apply_string r value = elim r.string_replacer [
  | none ↦ ok none
  | some replacer ↦ elim r.string [
    | none ↦ panic nil_dereference
    | some string ↦
        if contains value string
        then ok (some (replace_all value replacer.old replacer.new))
        else ok none
  ]
]

-- the second `if` of a round
unfoldable pub apply_regexp : Replacement → Bytes → Option Bytes
apply_regexp r value = elim r.regexp [
  | none ↦ none
  | some regexp ↦
      if regexp.match_string value
      then some (
          if not (contains r.replacement (codes "$"))
          then regexp.replace_all_literal_string value r.replacement
          else regexp.replace_all_string value r.replacement)
      else none
]

-- one round of the loop: the value that it returns, or `none` to go on
unfoldable pub apply : Replacement → Bytes → Result Error (Option Bytes)
unfolding apply_string apply_regexp
apply r value = do
  found ← apply_string r value
  elim found [ some replaced ↦ ok (some replaced) | none ↦ ok (apply_regexp r value) ]

unfoldable pub value_replacements : List Replacement → Bytes → Result Error Bytes
value_replacements [] value = ok value
value_replacements (r ∷ rs) value = elim (apply r value) [
  | ok (some replaced) ↦ ok replaced
  | ok none ↦ value_replacements rs value
  | err e ↦ err e
  | panic p ↦ panic p
]
