-- ===== src/Strings/Prefix.antt =====
-- The law of CutPrefix.
use access_log_exporter.Prelude.{
  ◌≡◌, ◌≢◌, refl, ◌⊎◌, inl, inr, true, [], ◌∷◌, ◌++◌, none, some, Bytes, ◌==◌, ==_iff, Bool-cases,
}
use access_log_exporter.Strings.Search.{cut_prefix}

-- a text either is the prefix and the rest that is cut, or does not begin with the prefix
pub cut_prefix-cases :
    (s prefix : Bytes)
    → ((rest : Bytes) × (cut_prefix s prefix ≡ some rest) × (s ≡ prefix ++ rest))
      ⊎ ((cut_prefix s prefix ≡ none) × ((rest : Bytes) → s ≢ prefix ++ rest))
unfolding cut_prefix
cut_prefix-cases s [] = inl (s, refl, refl)
cut_prefix-cases [] (p ∷ prefix) = inr (refl, λ rest h. cc)
cut_prefix-cases (c ∷ s) (p ∷ prefix) = elim (Bool-cases (c == p)) [
  | inr e ↦ inr (
    rw (e, cut_prefix) refl,
    λ rest h. let same : c ≡ p = cc in let equal : (c == p) ≡ true = (==_iff c p).1 same in cc,
  )
  | inl e ↦ elim (cut_prefix-cases s prefix) [
    | inl (rest, q, h) ↦ inl (rest, rw (e, cut_prefix) q, let same : c ≡ p = (==_iff c p).0 e in cc)
    | inr (q, h) ↦
        inr (rw (e, cut_prefix) q, λ rest k. let tails : s ≡ prefix ++ rest = cc in h rest tails)
  ]
]
