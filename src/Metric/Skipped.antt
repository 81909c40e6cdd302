-- ===== src/Metric/Skipped.antt =====
-- The lines that `Parse` of internal/metric/metric.go skips, or refuses at once.
use access_log_exporter.Prelude.{
  ℕ, ◌≤◌, ◌≡◌, refl, ap, ◌∙◌, ◌⊎◌, inl, inr, true, List, [], ◌∷◌, some, Bytes, codes, str_eq,
  length, get_elem?, get_elem?-lt, arith, ok, err,
}
use access_log_exporter.Float.{FloatOps}
use access_log_exporter.Metric.Types.{value_index_out_of_range, Metric}
use access_log_exporter.Metric.Parse.{
  extract_at, extract_value, validate_and_extract_value, proceed, parse,
}
use access_log_exporter.Metric.Lines.{IsStarted, validate_started}

-- the lines that have nothing to record
abbrev pub IsSkipped : Metric → List Bytes → Type 0
IsSkipped m [] = Unit
IsSkipped m (first ∷ rest) =
    (first ≡ [])
    ⊎ ((i : ℕ) × (m.cfg.value_index ≡ some i)
        × ((get_elem? (first ∷ rest) i ≡ some [])
            ⊎ (get_elem? (first ∷ rest) i ≡ some (codes "-"))))

dash_skipped : str_eq (codes "-") (codes "-") ≡ true
dash_skipped = unfold str_eq in refl

extract_at_skipped :
    (m : Metric) (line : List Bytes) (i : ℕ)
    → (get_elem? line i ≡ some []) ⊎ (get_elem? line i ≡ some (codes "-"))
    → extract_at m line i ≡ ok ([], true)
unfolding extract_at
extract_at_skipped m line i (inl e) = ground (arith, get_elem?-lt line i e)
extract_at_skipped m line i (inr e) = ground (arith, get_elem?-lt line i e, dash_skipped)

validate_skipped :
    (m : Metric) (line : List Bytes)
    → IsSkipped m line
    → validate_and_extract_value m line ≡ ok ([], true)
unfolding validate_and_extract_value extract_value
validate_skipped m [] h = refl
validate_skipped m (first ∷ rest) (inl e) = rw e
validate_skipped m (first ∷ rest) (inr (i, e, h)) =
    ground (arith, extract_at_skipped m (first ∷ rest) i h)

-- A line that has no field, begins with an empty field, or has an empty field or "-" at the place of
-- the value makes no call, returns no error and leaves the metric as it was.
pub parse_skips :
    (fl : FloatOps) (m : Metric) (choice : ℕ) (line : List Bytes)
    → IsSkipped m line
    → parse fl m choice line ≡ record { after = m; calls = []; result = ok tt }
unfolding parse proceed
parse_skips fl m choice line h = rw (validate_skipped m line h)

extract_value_short :
    (m : Metric) (line : List Bytes) (i : ℕ)
    → m.cfg.value_index ≡ some i
    → length line ≤ i
    → extract_value m line ≡ err (value_index_out_of_range i (length line))
unfolding extract_value extract_at
extract_value_short m line i e short = ground arith

-- A line whose first field is not empty and that has no field at the place of the value makes no
-- call, leaves the metric as it was, and returns the error that names the index and the number of
-- fields.
pub parse_value_out_of_range :
    (fl : FloatOps) (m : Metric) (choice : ℕ) (line : List Bytes) (i : ℕ)
    → IsStarted line
    → m.cfg.value_index ≡ some i
    → length line ≤ i
    → parse fl m choice line
      ≡ record { after = m; calls = []; result = err (value_index_out_of_range i (length line)) }
unfolding parse proceed
parse_value_out_of_range fl m choice line i started e short =
    ap (proceed fl m choice line)
      (validate_started m line started ∙ extract_value_short m line i e short)
