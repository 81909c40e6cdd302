-- ===== src/Metric/Valid.antt =====
-- The well-formed metrics, and the calls that fit a vector.
use access_log_exporter.Prelude.{
  ℕ, ◌≡◌, ◌≢◌, ◌⊎◌, false, List, [], Option, none, some, Bytes, All, length, replicate,
}
use access_log_exporter.Float.{is_negative}
use access_log_exporter.Config.Types.{Replacement, Label, MetricConfig}
use access_log_exporter.Metric.Types.{
  Kind, counter_vec, gauge_vec, histogram_vec, Vec, Call, inc, add, set, observe, Metric,
}
use access_log_exporter.Metric.New.{label_count}

-- A replacement by text has the text: `UnmarshalYAML` sets the replacer only together with it.
abbrev pub IsDecoded : Replacement → Type 0
IsDecoded r = (r.string_replacer ≡ none) ⊎ (r.string ≢ none)

abbrev AllDecoded : Option (List Replacement) → Type 0
AllDecoded none = Unit
AllDecoded (some rs) = All IsDecoded rs

pub record HasDecoded (cfg : MetricConfig) : Type 0 where
  pub of_value : AllDecoded cfg.replacements
  pub of_labels : All (λ (label : Label). All IsDecoded label.replacements) cfg.labels

abbrev pub IsBlank : ℕ → List Bytes → Type 0
IsBlank n labels = labels ≡ replicate n []

-- The vector is there and has a key for each label value, the pool holds blank slices of that
-- length, the parser is there if a label wants it, and a metric without a value is a counter.
pub record IsValid (m : Metric) : Type 0 where
  pub vec : Vec
  pub built : m.metric ≡ some vec
  pub counted : m.label_count ≡ label_count m.cfg
  pub keyed : length vec.label_keys ≡ m.label_count
  pub pooled : All (IsBlank m.label_count) m.labels_pool
  pub parses : All (λ (label : Label). (label.user_agent ≡ false) ⊎ (m.ua ≢ none)) m.cfg.labels
  pub increments : (m.cfg.value_index ≢ none) ⊎ (vec.kind ≡ counter_vec)

-- The method of the call is one of the vector's kind, it passes a value for each key, and a counter
-- is not made smaller.
abbrev FitsKind : Kind → ℕ → Call → Type 0
FitsKind counter_vec n (inc labels) = length labels ≡ n
FitsKind counter_vec n (add labels value) = (length labels ≡ n) × (is_negative value ≡ false)
FitsKind gauge_vec n (set labels value) = length labels ≡ n
FitsKind histogram_vec n (observe labels value) = length labels ≡ n
FitsKind _ _ _ = ⊥

abbrev pub Fits : Vec → Call → Type 0
Fits vec = FitsKind vec.kind (length vec.label_keys)
