-- ===== src/Metric/Pool.antt =====
-- The pool of label slices of a well-formed metric.
use mathlib.Core.Option.{some-injective}
use access_log_exporter.Prelude.{
  ℕ, zero, suc, ◌≡◌, refl, ap, subst, inl, inr, List, [], ◌∷◌, map, some, Bytes, length, replicate,
  get_elem?, All, Option-cases,
}
use access_log_exporter.Metric.Types.{Metric}
use access_log_exporter.Metric.Labels.{get_labels_from_pool, remove_at}
use access_log_exporter.Metric.Valid.{IsBlank}

-- a valid metric hands out a blank slice, and blank slices stay in the pool
remove_at-All :
    (P : List Bytes → Type 0) (pool : List (List Bytes)) (i : ℕ)
    → All P pool
    → All P (remove_at pool i)
remove_at-All P [] i h = tt
remove_at-All P (x ∷ xs) zero (h, hs) = hs
remove_at-All P (x ∷ xs) (suc i) (h, hs) = (h, remove_at-All P xs i hs)

get_elem?-All :
    (P : List Bytes → Type 0) (pool : List (List Bytes)) (i : ℕ) (x : List Bytes)
    → All P pool
    → get_elem? pool i ≡ some x
    → P x
get_elem?-All P [] i x h e = cc
get_elem?-All P (y ∷ ys) zero x (h, hs) e = subst P (some-injective y x e) h
get_elem?-All P (y ∷ ys) (suc i) x (h, hs) e = get_elem?-All P ys i x hs e

pub map-blank :
    (labels : List Bytes) → map {B = Bytes} (λ _. []) labels ≡ replicate (length labels) []
map-blank [] = refl
map-blank (l ∷ ls) = ap (λ t. [] ∷ t) (map-blank ls)

pub get_labels_lem :
    (m : Metric) (choice : ℕ)
    → All (IsBlank m.label_count) m.labels_pool
    → IsBlank m.label_count (get_labels_from_pool m choice).0
      × All (IsBlank m.label_count) (get_labels_from_pool m choice).1
unfolding get_labels_from_pool
get_labels_lem m choice h = elim (Option-cases (get_elem? m.labels_pool choice)) [
  | inl e ↦ rw (e, get_labels_from_pool) (refl, h)
  | inr (labels, e) ↦
      rw (e, get_labels_from_pool)
        (
          get_elem?-All (IsBlank m.label_count) m.labels_pool choice labels h e,
          remove_at-All (IsBlank m.label_count) m.labels_pool choice h,
        )
]
