-- ===== src/Collector/Fields.antt =====
-- `splitLineFields` of internal/collector/line.go.
use access_log_exporter.Prelude.{
  ℕ, zero, suc, ◌<◌, ◌≡◌, ◌∙◌, inl, inr, List, [], ◌∷◌, ◌++◌, append_assoc, none, some, Bytes,
  length, take, All, Option-cases, arith,
}
use access_log_exporter.Strings.Search.{cut}
use access_log_exporter.Strings.Split.{split, join}
use access_log_exporter.Strings.Laws.{
  Lacks, count, join-split, split-Lacks, length-split, split-cut-none, split-cut-some, cut-shorter,
}

-- The loop, on fuel. `Cut` gives what the code takes by `IndexByte` and two slices.
unfoldable pub split_fields_from : ℕ → List Bytes → Bytes → List Bytes
split_fields_from zero fields line = fields ++ line ∷ []
split_fields_from (suc fuel) fields line = elim (cut line b'\t') [
  | none ↦ fields ++ line ∷ []
  | some (field, rest) ↦ split_fields_from fuel (fields ++ field ∷ []) rest
]

-- `fields` is a slice that is used again: only its storage is kept. A round shortens the line, so
-- its length is fuel enough.
unfoldable pub split_line_fields : List Bytes → Bytes → List Bytes
unfolding split_fields_from
split_line_fields fields line = split_fields_from (suc (length line)) (take 0 fields) line

split_fields_from-split :
    (fuel : ℕ) (fields : List Bytes) (line : Bytes)
    → length line < fuel
    → split_fields_from fuel fields line ≡ fields ++ split line b'\t'
unfolding split_fields_from
split_fields_from-split zero fields line h = elim h [ ]
split_fields_from-split (suc fuel) fields line h = elim (Option-cases (cut line b'\t')) [
  | inl e ↦ rw (e, split-cut-none b'\t' line e, split_fields_from)
  | inr ((field, rest), e) ↦
      rw (e, split-cut-some b'\t' line field rest e, split_fields_from)
        (split_fields_from-split fuel (fields ++ field ∷ []) rest
            (omega (arith, cut-shorter b'\t' line field rest e))
          ∙ append_assoc fields (field ∷ []) (split rest b'\t'))
]

pub split_line_fields-split :
    (fields : List Bytes) (line : Bytes) → split_line_fields fields line ≡ split line b'\t'
unfolding split_line_fields
split_line_fields-split fields line =
    split_fields_from-split (suc (length line)) [] line (omega arith)

-- The fields of a line, whatever the slice held before: joined by tabs they are the line, none holds
-- a tab, and there is one more of them than there are tabs.
pub split_line_fields_lem :
    (fields : List Bytes) (line : Bytes)
    → (join (split_line_fields fields line) b'\t' ≡ line)
      × All (Lacks b'\t') (split_line_fields fields line)
      × (length (split_line_fields fields line) ≡ suc (count b'\t' line))
split_line_fields_lem fields line =
    rw (split_line_fields-split fields line)
      (join-split b'\t' line, split-Lacks b'\t' line, length-split b'\t' line)
