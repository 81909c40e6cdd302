-- ===== src/Metric/Labels.antt =====
-- The label values of a line, and the pool that their slices come from: `getLabelsFromPool`,
-- `returnLabelsToPool` and `processLabels` of internal/metric/metric.go.
use access_log_exporter.Prelude.{
  ℕ, zero, suc, ◌+◌, List, [], ◌∷◌, map, none, some, Bytes, length, replicate, get_elem?, leb,
  if◌then◌else◌, Result, ok, panic, nil_dereference, index,
}
use access_log_exporter.Config.Types.{Label}
use access_log_exporter.Metric.Types.{Error, label_index_out_of_range, Metric}
use access_log_exporter.Metric.Act.{Act, return, fail, lift, set_label, ◌>>=◌, ◌>>◌}
use access_log_exporter.Metric.Replace.{value_replacements}

abbrev pub remove_at {ℓ} : {A : Type ℓ} → List A → ℕ → List A
remove_at [] i = []
remove_at (x ∷ xs) zero = xs
remove_at (x ∷ xs) (suc i) = x ∷ remove_at xs i

-- `sync.Pool.Get` hands out any slice of the pool, or a new one: the number chooses. A slice that is
-- handed out belongs to one caller. The pool holds nothing but slices, so `ok` is never false.
unfoldable pub get_labels_from_pool : Metric → ℕ → List Bytes × List (List Bytes)
get_labels_from_pool m choice = elim (get_elem? m.labels_pool choice) [
  | some labels ↦ (labels, remove_at m.labels_pool choice)
  | none ↦ (replicate m.label_count [], m.labels_pool)
]

unfoldable pub return_labels_to_pool : Metric → List Bytes → List (List Bytes) → Metric
return_labels_to_pool m labels pool = record m { labels_pool = map (λ _. []) labels ∷ pool }

unfoldable pub parse_user_agent : Metric → Label → Bytes → Result Error Bytes
parse_user_agent m label value =
    if label.user_agent
    then elim m.ua [ none ↦ panic nil_dereference | some parser ↦ ok (parser.family value) ]
    else ok value

-- the body of the loop, for the label at the index `i`
unfoldable pub process_label : Metric → List Bytes → ℕ → Label → Act (Unit {0})
unfolding parse_user_agent
process_label m line i label =
    if leb (length line) label.line_index
    then fail (label_index_out_of_range label.name (length line))
    else do
      field ← lift (index line label.line_index)
      value ← lift (parse_user_agent m label field)
      replaced ← lift (value_replacements label.replacements value)
      set_label i replaced

unfoldable pub process_labels_from : Metric → List Bytes → ℕ → List Label → Act (Unit {0})
process_labels_from m line i [] = return tt
process_labels_from m line i (label ∷ labels) = do
  process_label m line i label
  process_labels_from m line (i + 1) labels

abbrev pub process_labels : Metric → List Bytes → Act (Unit {0})
process_labels m line = process_labels_from m line 0 m.cfg.labels
