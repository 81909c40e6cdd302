-- ===== src/Strings/RoundTrip.antt =====
-- Joining and splitting again.
use mathlib.Core.List.{cons-ne-nil}
use access_log_exporter.Prelude.{
  ℕ, ◌≡◌, ◌≢◌, refl, ap, ◌∙◌, List, [], ◌∷◌, ◌++◌, Bytes, All, ne→==, ==_iff,
}
use access_log_exporter.Strings.Split.{split, join, cons_head}
use access_log_exporter.Strings.Laws.{Lacks}

module _ (sep : ℕ) where
  split-append :
      (part rest : Bytes) → Lacks sep part → split (part ++ sep ∷ rest) sep ≡ part ∷ split rest sep
  unfolding split
  split-append [] rest h = rw ((==_iff sep sep).1 refl, split) refl
  split-append (c ∷ part) rest (p, h) =
      rw (ne→== c sep p, split) (ap (cons_head c) (split-append part rest h))

  split-whole : (part : Bytes) → Lacks sep part → split part sep ≡ part ∷ []
  unfolding split
  split-whole [] h = refl
  split-whole (c ∷ part) (p, h) = rw (ne→== c sep p, split) (ap (cons_head c) (split-whole part h))

  pub split-join :
      (parts : List Bytes) → parts ≢ [] → All (Lacks sep) parts → split (join parts sep) sep ≡ parts
  unfolding join
  split-join [] ne h = absurd (ne refl)
  split-join (part ∷ []) ne (p, _) = split-whole part p
  split-join (part ∷ next ∷ parts) ne (p, h) =
      split-append part (join (next ∷ parts) sep) p
      ∙ ap (λ l. part ∷ l) (split-join (next ∷ parts) (cons-ne-nil _ _) h)
