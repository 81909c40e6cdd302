-- ===== src/Strings/Split.antt =====
-- strings.Split and strings.Join, with a separator of one byte.
use access_log_exporter.Prelude.{ℕ, true, false, List, [], ◌∷◌, ◌++◌, Bytes, ◌==◌}

abbrev pub cons_head : ℕ → List Bytes → List Bytes
cons_head c [] = (c ∷ []) ∷ []
cons_head c (part ∷ parts) = (c ∷ part) ∷ parts

unfoldable pub split : Bytes → ℕ → List Bytes
split [] sep = [] ∷ []
split (c ∷ s) sep = elim (c == sep) [ true ↦ [] ∷ split s sep | false ↦ cons_head c (split s sep) ]

unfoldable pub join : List Bytes → ℕ → Bytes
join [] sep = []
join (part ∷ []) sep = part
join (part ∷ next ∷ parts) sep = part ++ sep ∷ join (next ∷ parts) sep
