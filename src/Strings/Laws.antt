-- ===== src/Strings/Laws.antt =====
-- What splitting, cutting and joining at a byte have to do with one another.
use mathlib.Core.List.{cons-ne-nil}
use access_log_exporter.Prelude.{
  ℕ, suc, ◌<◌, ◌≡◌, ◌≢◌, refl, sym, ap, ◌∙◌, ◌⊎◌, inl, inr, List, [], ◌∷◌, true, false, Option,
  none, some, arith, Bytes, ◌==◌, All, length,
}
use access_log_exporter.Strings.Search.{cut}
use access_log_exporter.Strings.Split.{split, join, cons_head}

-- no byte of the text is `b`
abbrev pub Lacks : ℕ → Bytes → Type 0
Lacks b = All (λ c. c ≢ b)

-- the number of bytes that are `b`
abbrev pub count : ℕ → Bytes → ℕ
count b [] = 0
count b (c ∷ s) = elim (c == b) [ true ↦ suc (count b s) | false ↦ count b s ]

module _ (sep : ℕ) where
  split-cons :
      (c : ℕ) (s : Bytes)
      → ((c ≡ sep) × (split (c ∷ s) sep ≡ [] ∷ split s sep))
        ⊎ ((c ≢ sep) × (split (c ∷ s) sep ≡ cons_head c (split s sep)))
  unfolding split
  split-cons c s = ground arith

  cons_head-ne-nil : (c : ℕ) (ps : List Bytes) → cons_head c ps ≢ []
  cons_head-ne-nil c [] = cons-ne-nil _ _
  cons_head-ne-nil c (p ∷ ps) = cons-ne-nil _ _

  pub split-ne-nil : (s : Bytes) → split s sep ≢ []
  split-ne-nil [] = unfold split in cons-ne-nil _ _
  split-ne-nil (c ∷ s) = elim (split-cons c s) [
    | inl (_, e) ↦ rw e (cons-ne-nil _ _)
    | inr (_, e) ↦ rw e (cons_head-ne-nil c (split s sep))
  ]

  join-nil_cons : (ps : List Bytes) → ps ≢ [] → join ([] ∷ ps) sep ≡ sep ∷ join ps sep
  unfolding join
  join-nil_cons [] h = absurd (h refl)
  join-nil_cons (p ∷ ps) h = refl

  join-cons_head : (c : ℕ) (ps : List Bytes) → join (cons_head c ps) sep ≡ c ∷ join ps sep
  unfolding join
  join-cons_head c [] = refl
  join-cons_head c (p ∷ []) = refl
  join-cons_head c (p ∷ q ∷ ps) = refl

  pub join-split : (s : Bytes) → join (split s sep) sep ≡ s
  join-split [] = unfold split join in refl
  join-split (c ∷ s) = elim (split-cons c s) [
    | inl (p, e) ↦ rw (e, join-nil_cons _ (split-ne-nil s), join-split s, p)
    | inr (_, e) ↦ rw (e, join-cons_head, join-split s)
  ]

  cons_head-Lacks :
      (c : ℕ) (ps : List Bytes) → c ≢ sep → All (Lacks sep) ps → All (Lacks sep) (cons_head c ps)
  cons_head-Lacks c [] h _ = ((h, tt), tt)
  cons_head-Lacks c (p ∷ ps) h (k, ks) = ((h, k), ks)

  pub split-Lacks : (s : Bytes) → All (Lacks sep) (split s sep)
  split-Lacks [] = unfold split in (tt, tt)
  split-Lacks (c ∷ s) = elim (split-cons c s) [
    | inl (_, e) ↦ rw e (tt, split-Lacks s)
    | inr (h, e) ↦ rw e (cons_head-Lacks c (split s sep) h (split-Lacks s))
  ]

  length-cons_head : (c : ℕ) (ps : List Bytes) → ps ≢ [] → length (cons_head c ps) ≡ length ps
  length-cons_head c [] h = absurd (h refl)
  length-cons_head c (p ∷ ps) h = refl

  pub length-split : (s : Bytes) → length (split s sep) ≡ suc (count sep s)
  length-split [] = unfold split in refl
  length-split (c ∷ s) = elim (split-cons c s) [
    | inl (p, e) ↦ rw (e, p) (ground (arith, length-split s))
    | inr (h, e) ↦ rw (e, length-cons_head c _ (split-ne-nil s), length-split s) (ground arith)
  ]

  -- A split is the text up to the first separator, and the split of the rest.
  abbrev split_by : Bytes → Option (Bytes × Bytes) → List Bytes
  split_by s none = s ∷ []
  split_by s (some (before, after)) = before ∷ split after sep

  abbrev add_before : ℕ → Option (Bytes × Bytes) → Option (Bytes × Bytes)
  add_before c none = none
  add_before c (some (before, after)) = some (c ∷ before, after)

  cut-cons :
      (c : ℕ) (s : Bytes)
      → ((c ≡ sep) × (cut (c ∷ s) sep ≡ some ([], s)))
        ⊎ ((c ≢ sep) × (cut (c ∷ s) sep ≡ add_before c (cut s sep)))
  unfolding cut
  cut-cons c s = ground arith

  split_by-add_before :
      (c : ℕ) (s : Bytes) (o : Option (Bytes × Bytes))
      → cons_head c (split_by s o) ≡ split_by (c ∷ s) (add_before c o)
  split_by-add_before c s none = refl
  split_by-add_before c s (some (b, a)) = refl

  split-cut : (s : Bytes) → split s sep ≡ split_by s (cut s sep)
  split-cut [] = unfold split cut in refl
  split-cut (c ∷ s) = elim (split-cons c s) [
    | inl (p, e) ↦ elim (cut-cons c s) [ inl (_, f) ↦ rw (e, f) | inr (h, _) ↦ absurd (h p) ]
    | inr (h, e) ↦ elim (cut-cons c s) [
      | inl (p, _) ↦ absurd (h p)
      | inr (_, f) ↦ rw (e, f, split-cut s) (split_by-add_before c s (cut s sep))
    ]
  ]

  pub split-cut-none : (s : Bytes) → cut s sep ≡ none → split s sep ≡ s ∷ []
  split-cut-none s h = split-cut s ∙ ap (split_by s) h

  pub split-cut-some :
      (s before after : Bytes)
      → cut s sep ≡ some (before, after)
      → split s sep ≡ before ∷ split after sep
  split-cut-some s before after h = split-cut s ∙ ap (split_by s) h

  add_before-eq-some :
      (c : ℕ) (o : Option (Bytes × Bytes)) (before after : Bytes)
      → add_before c o ≡ some (before, after)
      → (rest : Bytes) × (o ≡ some (rest, after))
  add_before-eq-some c none before after h = cc
  add_before-eq-some c (some (b, a)) before after h = (b, ground arith)

  -- What stands behind the first separator is shorter than the text.
  pub cut-shorter :
      (s before after : Bytes) → cut s sep ≡ some (before, after) → length after < length s
  cut-shorter [] before after h = unfold cut in cc
  cut-shorter (c ∷ s) before after h = elim (cut-cons c s) [
    | inl (_, e) ↦ ground arith
    | inr (_, e) ↦
        let (rest, k) = add_before-eq-some c (cut s sep) before after (sym e ∙ h) in
        omega (arith, cut-shorter s rest after k)
  ]
