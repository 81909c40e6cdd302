-- ===== src/Strings/Replace.antt =====
-- strings.NewReplacer(old, new).Replace and strings.ReplaceAll: every occurrence of `old` that does
-- not overlap one before it. `Replacer` with an empty `old` writes `new` before each byte and at the
-- end; the exporter calls `ReplaceAll` with a text of one byte only, where the two agree.
use access_log_exporter.Prelude.{
  ℕ, zero, suc, ◌-◌, true, false, [], ◌∷◌, ◌++◌, Bytes, length, is_empty, if◌then◌else◌,
}
use access_log_exporter.Strings.Search.{has_prefix}

-- The first number counts the bytes of an occurrence that are still to be left out.
replace_from : Bytes → Bytes → ℕ → Bytes → Bytes
replace_from old new k [] = if is_empty old then new else []
replace_from old new (suc k) (c ∷ s) = replace_from old new k s
replace_from old new zero (c ∷ s) = elim (has_prefix (c ∷ s) old) [
  | true ↦ elim (is_empty old) [
    | true ↦ new ++ c ∷ replace_from old new zero s
    | false ↦ new ++ replace_from old new (length old - 1) s
  ]
  | false ↦ c ∷ replace_from old new zero s
]

unfoldable pub replace_all : Bytes → Bytes → Bytes → Bytes
unfolding replace_from has_prefix
replace_all s old new = replace_from old new 0 s
