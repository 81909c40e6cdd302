-- ===== src/Metric/Values.antt =====
-- The loop over a field with several values against a plain traversal of its parts.
use mathlib.Core.List.{cons-ne-nil}
use access_log_exporter.Prelude.{
  ℕ, zero, suc, ◌+◌, ◌<◌, ◌≡◌, ◌≢◌, refl, sym, ap, ◌∙◌, inl, inr, true, false, List, [], ◌∷◌, none,
  some, Bytes, length, is_empty, Option-cases, arith,
}
use access_log_exporter.Strings.Search.{cut}
use access_log_exporter.Strings.Split.{split, join}
use access_log_exporter.Strings.Laws.{
  cut-shorter, join-split, split-cut-none, split-cut-some, split-ne-nil,
}
use access_log_exporter.Strings.Space.{trim_space}
use access_log_exporter.Float.{FloatOps}
use access_log_exporter.Metric.Types.{Metric}
use access_log_exporter.Metric.Act.{Act, return, ◌>>◌}
use access_log_exporter.Metric.Upstream.{
  extract_next_value, process_element, process_values, process_comma_delimited_values,
}

-- the parts of a value that are looked at: an empty part at the end is not
abbrev pub elements : List Bytes → List Bytes
elements [] = []
elements (part ∷ []) = part ∷ []
elements (part ∷ [] ∷ []) = part ∷ []
elements (part ∷ next ∷ parts) = part ∷ elements (next ∷ parts)

elements-cons :
    (part after : Bytes)
    → after ≢ []
    → elements (part ∷ split after b',') ≡ part ∷ elements (split after b',')
elements-cons part after h = go (split after b',') refl
  where
    go : (ps : List Bytes) → split after b',' ≡ ps → elements (part ∷ ps) ≡ part ∷ elements ps
    go [] e = absurd (split-ne-nil b',' after e)
    go ([] ∷ []) e =
        absurd (h (sym (join-split b',' after) ∙ ap (λ ps. join ps b',') e ∙ unfold join in refl))
    go ([] ∷ q ∷ ps) e = refl
    go ((c ∷ p) ∷ ps) e = refl

extract_none :
    (value : Bytes) → cut value b',' ≡ none → extract_next_value value ≡ (trim_space value, [])
unfolding extract_next_value
extract_none value e = rw (e, extract_next_value)

extract_some :
    (value before after : Bytes)
    → cut value b',' ≡ some (before, after)
    → extract_next_value value ≡ (trim_space before, after)
unfolding extract_next_value
extract_some value before after e = rw (e, extract_next_value)

module _ (fl : FloatOps) (m : Metric) (upstreams : List Bytes) where
  -- each part, trimmed, with its position
  unfoldable pub process_each : ℕ → List Bytes → Act (Unit {0})
  process_each i [] = return tt
  process_each i (part ∷ parts) =
      process_element fl m (trim_space part) upstreams i >> process_each (i + 1) parts

  -- a round of the loop, by what `extractNextValue` returned
  abbrev round : ℕ → ℕ → Bytes × Bytes → Act (Unit {0})
  round fuel i extracted =
      process_element fl m extracted.0 upstreams i >> elim (is_empty extracted.1) [
        | true ↦ return tt
        | false ↦ process_values fl m fuel extracted.1 upstreams (i + 1)
      ]

  round-each :
      (fuel i : ℕ) (before after : Bytes)
      → (after ≢ []
          → process_values fl m fuel after upstreams (i + 1)
            ≡ process_each (i + 1) (elements (split after b',')))
      → round fuel i (trim_space before, after)
        ≡ process_each i (elements (before ∷ split after b','))
  unfolding process_each
  round-each fuel i before [] ih = unfold split in refl
  round-each fuel i before (c ∷ after) ih =
      rw (elements-cons before (c ∷ after) (cons-ne-nil c after)) (
        ap (λ (k : Act (Unit {0})). process_element fl m (trim_space before) upstreams i >> k)
          (ih (cons-ne-nil c after)))

  process_values-each :
      (fuel : ℕ) (value : Bytes) (i : ℕ)
      → length value < fuel
      → process_values fl m fuel value upstreams i ≡ process_each i (elements (split value b','))
  unfolding process_values
  process_values-each zero value i enough = elim enough [ ]
  process_values-each (suc fuel) value i enough = elim (Option-cases (cut value b',')) [
    | inl e ↦
        rw (split-cut-none b',' value e)
          (ap (round fuel i) (extract_none value e) ∙ unfold process_each in refl)
    | inr ((before, after), e) ↦ rw (split-cut-some b',' value before after e) (
        ap (round fuel i) (extract_some value before after e)
        ∙ round-each fuel i before after (λ _.
          process_values-each fuel after (i + 1)
            (omega (arith, cut-shorter b',' value before after e))))
  ]

  -- The loop over a field of comma-separated values (which cuts one value after the other and looks
  -- at the comma again behind each) is, for every metric, upstreams and field, the plain traversal
  -- that handles each part of the split field, trimmed, with its position, where an empty part at
  -- the very end is not looked at; the rounds are enough for every field.
  pub process_comma-each :
      (value : Bytes)
      → process_comma_delimited_values fl m value upstreams
        ≡ process_each 0 (elements (split value b','))
  unfolding process_comma_delimited_values
  process_comma-each value = process_values-each (suc (length value)) value 0 (omega arith)
