-- ===== src/Metric/Keys.antt =====
-- The keys of the vector that `New` builds: the loop over the labels and the upstream key.
use access_log_exporter.Prelude.{
  ℕ, zero, suc, ◌+◌, ◌<◌, ◌≤◌, ◌≡◌, ◌≢◌, refl, sym, ap, ◌∙◌, ◌⊎◌, inl, inr, ◌↔◌, Bool, true, false,
  not, ◌||◌, ◌&&◌, List, [], ◌∷◌, ◌++◌, map, Option, none, some, Bytes, append-nil, codes, str_eq,
  str_eq_iff, length, length-set, length-append, length-replicate, replicate, is_empty, is_empty→eq,
  is_empty→ne, ne→is_empty, any, All, Bool-cases, arith, if◌then◌else◌, Result, ok, err, panic,
  Returns, ◌>>=◌,
}
use access_log_exporter.Prelude
use access_log_exporter.Config.Types.{Label, MetricConfig}
use access_log_exporter.Metric.Types.{Error, empty_label_name}
use access_log_exporter.Metric.New.{
  label_count, has_upstream_label, set_index, fill_label_keys, add_upstream_key,
}
use access_log_exporter.Metric.Writes.{write_from, set-append, write_from-replicate}

abbrev pub IsNamed : Label → Type 0
IsNamed label = label.name ≢ []

abbrev pub wants_ua : List Label → Bool
wants_ua [] = false
wants_ua (label ∷ labels) = label.user_agent || wants_ua labels

abbrev pub names : List Label → List Bytes
names = map (λ label. label.name)

pub fill_label_keys_named :
    (labels : List Label) (i : ℕ) (keys : List Bytes) (b : Bool)
    → i + length labels ≤ length keys
    → All IsNamed labels
    → fill_label_keys i labels keys b ≡ ok (write_from i (names labels) keys, wants_ua labels || b)
unfolding fill_label_keys
fill_label_keys_named [] i keys b fits named = refl
fill_label_keys_named (label ∷ labels) i keys b fits (h, hs) =
    let keys' = Prelude.set keys i label.name in
    ground (
      arith,
      fill_label_keys_named labels (i + 1) keys' (label.user_agent || b),
      length-set keys i label.name,
    )

pub fill_label_keys_unnamed :
    (labels : List Label) (i : ℕ) (keys : List Bytes) (b : Bool)
    → i + length labels ≤ length keys
    → ¬ All IsNamed labels
    → fill_label_keys i labels keys b ≡ err empty_label_name
unfolding fill_label_keys
fill_label_keys_unnamed [] i keys b fits h = absurd (h tt)
fill_label_keys_unnamed (label ∷ labels) i keys b fits h = elim (Bool-cases (is_empty label.name)) [
  | inl e ↦ rw (e, fill_label_keys)
  | inr e ↦
      let keys' = Prelude.set keys i label.name in
      let b' = label.user_agent || b in
      let rest =
        fill_label_keys_unnamed labels (i + 1) keys' b'
          (omega (arith, length-set keys i label.name)) (λ k. h (is_empty→ne _ e, k)) in
      ground (arith, rest)
]

-- The keys of the vector: the names of the labels, and "upstream" behind them if it is wanted.
abbrev pub label_keys : MetricConfig → List Bytes
label_keys cfg = names cfg.labels ++ (if has_upstream_label cfg then codes "upstream" ∷ [] else [])

length-names : (labels : List Label) → length (names labels) ≡ length labels
length-names [] = refl
length-names (l ∷ ls) = ap suc (length-names ls)

pub length-label_keys : (cfg : MetricConfig) → length (label_keys cfg) ≡ label_count cfg
length-label_keys cfg = elim (Bool-cases (has_upstream_label cfg)) [
  | inl e ↦ rw e (
      length-append (names cfg.labels) (codes "upstream" ∷ [])
      ∙ omega (arith, length-names cfg.labels))
  | inr e ↦ rw (e, append-nil) (length-names cfg.labels)
]

set_index_lem :
    (xs : List Bytes) (i : ℕ) (v : Bytes)
    → i < length xs
    → set_index {E = Error} xs i v ≡ ok (Prelude.set xs i v)
set_index_lem xs i v h = ground arith

set_index-snoc :
    (xs : List Bytes) (x v : Bytes)
    → set_index {E = Error} (xs ++ x ∷ []) (length xs) v ≡ ok (xs ++ v ∷ [])
set_index-snoc xs x v =
    set_index_lem (xs ++ x ∷ []) (length xs) v (omega (arith, length-append xs (x ∷ [])))
    ∙ ap ok (set-append xs x v [])

-- the keys after the loop over the labels
unfoldable pub filled_keys : MetricConfig → List Bytes
filled_keys cfg = write_from 0 (names cfg.labels) (replicate (label_count cfg) [])

filled_keys_lem :
    (cfg : MetricConfig) (k : ℕ)
    → label_count cfg ≡ length cfg.labels + k
    → filled_keys cfg ≡ names cfg.labels ++ replicate k []
unfolding filled_keys
filled_keys_lem cfg k e =
    rw (e, ← length-names cfg.labels) (write_from-replicate (names cfg.labels) [] k)

pub add_upstream_key_lem :
    (cfg : MetricConfig) → add_upstream_key cfg (filled_keys cfg) ≡ ok (label_keys cfg)
unfolding add_upstream_key
add_upstream_key_lem cfg = elim (Bool-cases (has_upstream_label cfg)) [
  | inl e ↦
      let filled = filled_keys_lem cfg 1 (rw e) in
      rw (e, filled, ← length-names cfg.labels)
        (set_index-snoc (names cfg.labels) [] (codes "upstream"))
  | inr e ↦ rw (e) (ap ok (filled_keys_lem cfg 0 (rw e (omega arith))))
]
