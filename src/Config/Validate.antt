-- ===== src/Config/Validate.antt =====
-- Validate and validateTLS of internal/config/validate.go, on the parts of the configuration that they
-- read, and Replacement.UnmarshalYAML of types.go.
use access_log_exporter.Prelude.{
  true, false, List, [], ◌∷◌, Option, none, some, Bytes, is_empty, str_eq, if◌then◌else◌, Result,
  ok, err,
}
use access_log_exporter.Config.Types.{Replacement, MetricConfig}
use access_log_exporter.Config.Sections.{Config}

pub data Invalid : Type 0 where
  preset_not_found tls_incomplete : Invalid

-- `conf.Presets[name]`
unfoldable pub find_preset : List (Bytes × List MetricConfig) → Bytes → Option (List MetricConfig)
find_preset [] name = none
find_preset ((key, metrics) ∷ presets) name =
    if str_eq key name then some metrics else find_preset presets name

unfoldable pub validate_tls : Config → Result Invalid (Unit {0})
validate_tls conf = elim (is_empty conf.web.tls_cert_file) [
  | true ↦ if is_empty conf.web.tls_key_file then ok tt else err tls_incomplete
  | false ↦ if is_empty conf.web.tls_key_file then err tls_incomplete else ok tt
]

unfoldable pub validate : Config → Result Invalid (Unit {0})
validate conf = elim (find_preset conf.presets conf.preset) [
  | none ↦ err preset_not_found
  | some _ ↦ validate_tls conf
]

pub data DecodeError : Type 0 where
  not_decoded both_given : DecodeError

-- `Replacement.UnmarshalYAML`: `decode` is what `data.Decode(&aux)` makes of the replacement, of which
-- it does not touch the replacer (its tag is `yaml:"-"`). The receiver after it, and the error.
unfoldable pub unmarshal_yaml :
    (Replacement → Option Replacement) → Replacement → Replacement × Result DecodeError (Unit {0})
unmarshal_yaml decode r = elim (decode r) [
  | none ↦ (r, err not_decoded)
  | some aux ↦ elim aux.string [
    | none ↦ (aux, ok tt)
    | some old ↦ elim aux.regexp [
      | some _ ↦ (aux, err both_given)
      | none ↦ (
        record aux { string_replacer = some (record { old = old; new = aux.replacement }) },
        ok tt,
      )
    ]
  ]
]
