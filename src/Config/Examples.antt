-- ===== src/Config/Examples.antt =====
-- The theorems on the configuration, at concrete configurations, arguments and slices.
use mathlib.Core.Option.{some-injective}
use mathlib.Core.List.{cons-ne-nil}
use access_log_exporter.Prelude.{
  true, err, negsuc, str_eq, if◌then◌else◌, ◌<◌, ◌^◌, ◌≡◌, ◌≢◌, ◌↔◌, refl, sym, ap, [], ◌∷◌, ◌++◌,
  Option, none, some, Bytes, codes, is_empty, ok,
}
use access_log_exporter.Strings.Search.{has_prefix, cut_prefix}
use access_log_exporter.Config.Types.{Replacement}
use access_log_exporter.Config.Lookup.{lookup_config_argument, default_config_path}
use access_log_exporter.Config.Numbers.{IsInt}
use access_log_exporter.Config.Url.{is_empty_url, marshal_text, unmarshal_text, empty_url}
use access_log_exporter.Config.Slices.{
  marshal_strings, unmarshal_strings, marshal_floats, unmarshal_floats, unmarshal_strings_json,
  unmarshal_floats_json, unmarshal_strings_yaml, unmarshal_floats_yaml,
}
use access_log_exporter.Config.Sections.{Config, defaults}
use access_log_exporter.Config.Validate.{find_preset, validate, unmarshal_yaml}
use access_log_exporter.Nginx.Decimal.{decimal}
use access_log_exporter.Config.Flags.{Host}
use access_log_exporter.Config.FlagSet.{all_flags, set_defaults}
use access_log_exporter.Config.Load.{variables}
use access_log_exporter.Config.Integers.{IsTakenIf, set_defaults-integers}
use access_log_exporter.Config.Laws.{
  validate_iff, IsUnmarshalled, unmarshal_yaml-IsUnmarshalled, lookup_config_argument_lem,
}
use access_log_exporter.Config.RoundTrip.{slices_round_trip}
use access_log_exporter.Metric.Examples.{digit_floats}

abbrev tls_config : Config
tls_config = record defaults {
  presets = (codes "simple", []) ∷ [];
  web = record { listen_address = []; tls_cert_file = codes "c"; tls_key_file = [] };
}

validate_iff_example : (validate tls_config ≡ ok tt) ↔ (
    (find_preset tls_config.presets tls_config.preset ≢ none)
    × (is_empty tls_config.web.tls_cert_file ≡ is_empty tls_config.web.tls_key_file))
validate_iff_example = validate_iff tls_config

abbrev empty_replacement : Replacement
empty_replacement = record {
  string = none;
  regexp = none;
  string_replacer = none;
  replacement = [];
}

abbrev decode_text : Replacement → Option Replacement
decode_text r = some (record r { string = some (codes "a"); replacement = codes "b" })

keeps_replacer :
    (r aux : Replacement) → decode_text r ≡ some aux → aux.string_replacer ≡ r.string_replacer
keeps_replacer r aux e = sym (ap (λ (q : Replacement). q.string_replacer) (some-injective _ _ e))

unmarshal_yaml-IsUnmarshalled_example :
    IsUnmarshalled (unmarshal_yaml decode_text empty_replacement).0
unfolding unmarshal_yaml
unmarshal_yaml-IsUnmarshalled_example =
    unmarshal_yaml-IsUnmarshalled decode_text empty_replacement keeps_replacer refl refl

abbrev no_env : Bytes → Option Bytes
no_env name = none

lookup_config_argument_lem_example :
    (lookup_config_argument no_env
        (codes "exporter" ∷ [] ++ (codes "--config=" ++ codes "f") ∷ codes "-v" ∷ [])
      ≡ codes "f")
    × (lookup_config_argument no_env
          (codes "exporter" ∷ [] ++ codes "--config" ∷ codes "f" ∷ codes "-v" ∷ [])
        ≡ codes "f")
    × (lookup_config_argument no_env (codes "exporter" ∷ [] ++ codes "--config" ∷ [])
        ≡ default_config_path no_env)
    × (lookup_config_argument no_env (codes "exporter" ∷ []) ≡ default_config_path no_env)
unfolding has_prefix cut_prefix
lookup_config_argument_lem_example =
    lookup_config_argument_lem no_env (codes "exporter" ∷ []) (codes "-v" ∷ []) (codes "f")
      (refl, tt)

slices_round_trip_example :
    (unmarshal_strings (marshal_strings (codes "a" ∷ codes "b" ∷ [])) ≡ codes "a" ∷ codes "b" ∷ [])
    × (marshal_strings (unmarshal_strings (codes "x,,y")) ≡ codes "x,,y")
    × (unmarshal_floats digit_floats (marshal_floats digit_floats (b'1' ∷ b'2' ∷ []))
        ≡ ok (b'1' ∷ b'2' ∷ []))
slices_round_trip_example =
    slices_round_trip (codes "a" ∷ codes "b" ∷ []) (codes "x,,y") digit_floats b'1' (b'2' ∷ [])
      (cons-ne-nil _ _) (((λ e. cc), tt), (((λ e. cc), tt), tt))
      ((refl, ((λ e. cc), tt)), ((refl, ((λ e. cc), tt)), tt))

-- URLs that are their own text
abbrev own_text : Bytes → Option Bytes
own_text s = some s

-- an empty URL is not read back, and the receiver stays
test_url_text :
    (unmarshal_text own_text
        (λ s. s)
        (marshal_text own_text (λ s. s) (some (codes "http://n")))
        none
      ≡ (some (codes "http://n"), ok tt))
    × (unmarshal_text own_text
          (λ s. s)
          (marshal_text own_text (λ s. s) none)
          (some (codes "http://n"))
        ≡ (some (codes "http://n"), err empty_url))
unfolding marshal_text unmarshal_text is_empty_url
test_url_text = (refl, refl)

-- a number that is too large for 64 bits, and a negative one
abbrev integer_host : Host
integer_host = record {
  lookup_env = λ name.
      if str_eq name (codes "CONFIG_BUFFER_SIZE")
      then some (decimal 18446744073709551616)
      else if str_eq name (codes "CONFIG_WORKER")
      then some (b'-' ∷ decimal 8)
      else none;
  parse_url = λ s. none;
  parse_duration = λ s. none;
  open_file = λ path. none;
  decode = λ content c. ok c;
}

set_defaults-integers_example :
    let conf : Config = (set_defaults integer_host all_flags (variables defaults)).conf in
    IsTakenIf (18446744073709551616 < 2 ^ 64) conf.buffer_size 18446744073709551616 1000
    × IsTakenIf (IsInt (negsuc 7)) conf.worker_count (negsuc 7) defaults.worker_count
unfolding str_eq
set_defaults-integers_example =
    set_defaults-integers integer_host (variables defaults) 18446744073709551616 (negsuc 7) refl
      refl

-- where the decoder fails, the slice that was there is lost
test_overwritten :
    (unmarshal_strings_json (λ _. ([], some true)) (codes "{}") (codes "old" ∷ [])
      ≡ ([], some true))
    × ((unmarshal_floats_json (λ _. ([], some true)) (codes "{}") (7 ∷ []) ≡ ([], some true))
        × ((unmarshal_strings_yaml (λ _. ([], some true)) (codes "{}") (codes "old" ∷ [])
              ≡ ([], some true))
            × (unmarshal_floats_yaml (λ _. ([], some true)) (codes "{}") (7 ∷ [])
                ≡ ([], some true))))
unfolding unmarshal_strings_json unmarshal_floats_json unmarshal_strings_yaml unmarshal_floats_yaml
test_overwritten = (refl, (refl, (refl, refl)))
