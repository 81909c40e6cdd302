-- ===== src/Metric/Describe.antt =====
-- Describe, Collect and Name of internal/metric/metric.go. What a Prometheus vector holds is given.
use access_log_exporter.Prelude.{List, [], ◌∷◌, none, some, Bytes, map}
use access_log_exporter.Metric.Types.{Vec, Metric}

-- A `*prometheus.Desc`, by what its constructor is given.
pub record Desc : Type 0 where
  pub fq_name : Bytes
  pub help : Bytes
  pub label_keys : List Bytes
  pub const_labels : List (Bytes × Bytes)

-- the description of a vector, which its metrics have in common
abbrev pub desc_of : Vec → Desc
desc_of vec = record {
  fq_name = vec.name;
  help = vec.help;
  label_keys = vec.label_keys;
  const_labels = vec.const_labels;
}

unfoldable pub describe : Metric → List Desc
describe m = elim m.metric [ none ↦ [] | some vec ↦ desc_of vec ∷ [] ]

-- The metrics that a vector has, each with the vector's description.
unfoldable pub collect {ℓ} : {A : Type ℓ} → (Vec → List A) → Metric → List (Desc × A)
collect children m = elim m.metric [
  | none ↦ []
  | some vec ↦ map (λ child. (desc_of vec, child)) (children vec)
]

unfoldable pub name : Metric → Bytes
name m = m.cfg.name
