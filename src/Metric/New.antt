-- ===== src/Metric/New.antt =====
-- The constructor `New` of internal/metric/metric.go.
use access_log_exporter.Prelude.{
  ℕ, suc, ◌+◌, Bool, true, false, not, ◌&&◌, ◌||◌, List, [], ◌∷◌, Option, none, some, Bytes, codes,
  str_eq, length, replicate, is_empty, ltb, if◌then◌else◌, Result, ok, err, panic,
  index_out_of_range, ◌>>=◌,
}
use access_log_exporter.Prelude
use access_log_exporter.Float.{Float64}
use access_log_exporter.Config.Types.{Label, MetricConfig}
use access_log_exporter.Useragent
use access_log_exporter.Metric.Types.{
  Error, empty_name, value_index_required, empty_label_name, unsupported_type, Kind, counter_vec,
  gauge_vec, histogram_vec, Vec, Metric,
}

-- `xs[i] = v`
abbrev pub set_index {ℓ} : {E : Type 0} {A : Type ℓ} → List A → ℕ → A → Result E (List A)
set_index xs i v = if ltb i (length xs) then ok (Prelude.set xs i v) else panic index_out_of_range

abbrev pub has_upstream_label : MetricConfig → Bool
has_upstream_label cfg = cfg.upstream.enabled && cfg.upstream.label

abbrev pub label_count : MetricConfig → ℕ
label_count cfg = if has_upstream_label cfg then length cfg.labels + 1 else length cfg.labels

abbrev pub is_none {ℓ} : {A : Type ℓ} → Option A → Bool
is_none none = true
is_none (some _) = false

-- the loop over `cfg.Labels`, from the index `i`, with the variables `labelKeys` and
-- `userAgentEnabled`
unfoldable pub fill_label_keys :
    ℕ → List Label → List Bytes → Bool → Result Error (List Bytes × Bool)
fill_label_keys i [] keys ua_enabled = ok (keys, ua_enabled)
fill_label_keys i (label ∷ labels) keys ua_enabled = elim (is_empty label.name) [
  | true ↦ err empty_label_name
  | false ↦ elim (set_index {E = Error} keys i label.name) [
    | ok keys' ↦ fill_label_keys (i + 1) labels keys' (label.user_agent || ua_enabled)
    | err e ↦ err e
    | panic p ↦ panic p
  ]
]

-- `uaParser` is set only if some label wants it.
unfoldable pub init_ua : Option Useragent.Parser → Bool → Result Error (Option Useragent.Parser)
unfolding Useragent.new
init_ua built false = ok none
init_ua built true = do parser ← Useragent.new built; ok (some parser)

unfoldable pub add_upstream_key : MetricConfig → List Bytes → Result Error (List Bytes)
add_upstream_key cfg keys =
    if has_upstream_label cfg
    then set_index keys (length cfg.labels) (codes "upstream")
    else ok keys

abbrev pub vec_of : MetricConfig → List Bytes → Kind → List Float64 → Vec
vec_of cfg keys kind buckets = record {
  kind = kind;
  name = cfg.name;
  help = cfg.help;
  const_labels = cfg.const_labels;
  buckets = buckets;
  label_keys = keys;
}

-- the `switch` on `cfg.Type`
unfoldable pub make_vec : List Float64 → MetricConfig → List Bytes → Result Error Vec
make_vec def_buckets cfg keys =
    if str_eq cfg.type (codes "counter")
    then ok (vec_of cfg keys counter_vec [])
    else if str_eq cfg.type (codes "gauge")
    then ok (vec_of cfg keys gauge_vec [])
    else if str_eq cfg.type (codes "histogram")
    then ok
        (vec_of cfg keys histogram_vec (if is_empty cfg.buckets then def_buckets else cfg.buckets))
    else err (unsupported_type cfg.type)

unfoldable pub new : List Float64 → Option Useragent.Parser → MetricConfig → Result Error Metric
unfolding fill_label_keys init_ua add_upstream_key make_vec
new def_buckets built cfg =
    if is_empty cfg.name
    then err empty_name
    else if is_none cfg.value_index && not (str_eq cfg.type (codes "counter"))
    then err value_index_required
    else do
      (keys, ua_enabled) ← fill_label_keys 0 cfg.labels (replicate (label_count cfg) []) false
      parser ← init_ua built ua_enabled
      keys' ← add_upstream_key cfg keys
      vec ← make_vec def_buckets cfg keys'
      ok (record {
        metric = some vec;
        ua = parser;
        labels_pool = [];
        label_count = label_count cfg;
        cfg = cfg;
      })
