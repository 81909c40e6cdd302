-- ===== src/Config/Laws.antt =====
-- What the lookups, the validation and the decoding of internal/config have to satisfy.
use access_log_exporter.Prelude.{
  ◌≡◌, ◌≢◌, ◌↔◌, refl, sym, ap, ◌∙◌, ◌⊎◌, inl, inr, false, List, [], ◌∷◌, ◌++◌, Option, none, some,
  Bytes, codes, All, Result, ok, err, is_empty, Bool-cases, Option-cases, append-nil,
}
use access_log_exporter.Strings.Search.{has_prefix, cut_prefix}
use access_log_exporter.Config.Types.{Replacement}
use access_log_exporter.Config.Lookup.{default_config_path, lookup_config_argument}
use access_log_exporter.Config.Sections.{Config}
use access_log_exporter.Config.Validate.{
  find_preset, validate_tls, validate, DecodeError, both_given, unmarshal_yaml,
}
use access_log_exporter.Metric.Replacing.{IsMade}
use access_log_exporter.Metric.Valid.{IsDecoded}

tls_iff :
    (conf : Config)
    → (validate_tls conf ≡ ok tt)
      ↔ (is_empty conf.web.tls_cert_file ≡ is_empty conf.web.tls_key_file)
unfolding validate_tls
tls_iff conf = elim (Bool-cases (is_empty conf.web.tls_cert_file)) [
  | inl c ↦ elim (Bool-cases (is_empty conf.web.tls_key_file)) [
    | inl k ↦ rw (c, k, validate_tls) ((λ _. refl), λ _. refl)
    | inr k ↦ rw (c, k, validate_tls) ((λ e. cc), λ e. cc)
  ]
  | inr c ↦ elim (Bool-cases (is_empty conf.web.tls_key_file)) [
    | inl k ↦ rw (c, k, validate_tls) ((λ e. cc), λ e. cc)
    | inr k ↦ rw (c, k, validate_tls) ((λ _. refl), λ _. refl)
  ]
]

-- `Validate` accepts a configuration just when its preset is among the presets and the two TLS files
-- are both named or both not.
pub validate_iff :
    (conf : Config)
    → (validate conf ≡ ok tt) ↔ (
        (find_preset conf.presets conf.preset ≢ none)
        × (is_empty conf.web.tls_cert_file ≡ is_empty conf.web.tls_key_file))
unfolding validate
validate_iff conf = elim (Option-cases (find_preset conf.presets conf.preset)) [
  | inl e ↦ rw (e, validate) ((λ h. cc), λ h. absurd (h.0 refl))
  | inr (metrics, e) ↦
      rw (e, validate) ((λ h. ((λ n. cc), (tls_iff conf).0 h)), λ h. (tls_iff conf).1 h.1)
]

-- what `UnmarshalYAML` returns without an error
abbrev pub IsUnmarshalled : Replacement → Type 0
IsUnmarshalled r = IsMade r × IsDecoded r × ((r.string ≡ none) ⊎ (r.regexp ≡ none))

both : ◌≢◌ {A = Result DecodeError (Unit {0})} (err both_given) (ok tt)
both = λ h. cc

unmarshalled :
    (r : Replacement) (o : Option Replacement)
    → ((aux : Replacement) → o ≡ some aux → aux.string_replacer ≡ none)
    → (unmarshal_yaml (λ _. o) r).1 ≡ ok tt
    → IsUnmarshalled (unmarshal_yaml (λ _. o) r).0
unfolding unmarshal_yaml
unmarshalled r none keeps e = cc
unmarshalled r (some aux) keeps e = elim (Option-cases aux.string) [
  | inl n ↦ rw n (keeps aux refl, inl (keeps aux refl), inl refl)
  | inr (old, n) ↦ elim (Option-cases aux.regexp) [
    | inl k ↦ rw (n, k) (refl, inr (λ z. cc), inr refl)
    | inr (_, k) ↦ absurd (both (rw (n, k) at e))
  ]
]

-- Where the decoder leaves the replacer as it finds it, a replacement without a replacer that is
-- decoded without an error has the replacer of its text, none if it has no text, and has not both a
-- text and a regular expression.
pub unmarshal_yaml-IsUnmarshalled :
    (decode : Replacement → Option Replacement) (r : Replacement)
    → ((r aux : Replacement) → decode r ≡ some aux → aux.string_replacer ≡ r.string_replacer)
    → r.string_replacer ≡ none
    → (unmarshal_yaml decode r).1 ≡ ok tt
    → IsUnmarshalled (unmarshal_yaml decode r).0
unfolding unmarshal_yaml
unmarshal_yaml-IsUnmarshalled decode r keeps h e =
    unmarshalled r (decode r) (λ aux e. keeps r aux e ∙ h) e

-- an argument that the loop passes over
abbrev pub NotConfig : Bytes → Type 0
NotConfig arg = has_prefix arg (codes "--config") ≡ false

passes :
    (env : Bytes → Option Bytes) (before args : List Bytes)
    → All NotConfig before
    → lookup_config_argument env (before ++ args) ≡ lookup_config_argument env args
unfolding lookup_config_argument
passes env [] args h = refl
passes env (arg ∷ before) args (p, h) = rw (p, lookup_config_argument) (passes env before args h)

-- Behind arguments that do not begin with "--config", the file is the one of "--config=FILE", or the
-- argument behind "--config"; without any such argument, or with "--config" as the last one, it is
-- the default, which looks at the environment.
pub lookup_config_argument_lem :
    (env : Bytes → Option Bytes) (before rest : List Bytes) (file : Bytes)
    → All NotConfig before
    → (lookup_config_argument env (before ++ (codes "--config=" ++ file) ∷ rest) ≡ file)
      × (lookup_config_argument env (before ++ codes "--config" ∷ file ∷ rest) ≡ file)
      × (lookup_config_argument env (before ++ codes "--config" ∷ []) ≡ default_config_path env)
      × (lookup_config_argument env before ≡ default_config_path env)
unfolding lookup_config_argument has_prefix cut_prefix
lookup_config_argument_lem env before rest file h = (
  passes env before ((codes "--config=" ++ file) ∷ rest) h,
  passes env before (codes "--config" ∷ file ∷ rest) h,
  passes env before (codes "--config" ∷ []) h,
  ap (lookup_config_argument env) (sym (append-nil before)) ∙ passes env before [] h,
)
