-- ===== src/Config/RoundTrip.antt =====
-- The slices of internal/config/types/slice.go, written and read back.
use mathlib.Core.List.{cons-ne-nil}
use access_log_exporter.Prelude.{◌≡◌, ◌≢◌, refl, ap, ◌∙◌, List, [], ◌∷◌, some, Bytes, map, All, ok}
use access_log_exporter.Strings.Laws.{Lacks, join-split}
use access_log_exporter.Strings.RoundTrip.{split-join}
use access_log_exporter.Float.{Float64, FloatOps}
use access_log_exporter.Config.Slices.{
  marshal_strings, unmarshal_strings, marshal_floats, parse_floats, unmarshal_floats,
}

-- A `StringSlice` with at least one element, none of which has a comma, is read back from its text;
-- and every text is the text of what is read from it.
pub strings_round_trip :
    (s : List Bytes) (text : Bytes)
    → s ≢ []
    → All (Lacks b',') s
    → (unmarshal_strings (marshal_strings s) ≡ s)
      × (marshal_strings (unmarshal_strings text) ≡ text)
unfolding unmarshal_strings marshal_strings
strings_round_trip s text ne h = (split-join b',' s ne h, join-split b',' text)

-- the formatted value is read back, and has no comma
abbrev pub IsReadable : FloatOps → Float64 → Type 0
IsReadable ops x = (ops.parse_float (ops.format_float x) ≡ some x) × Lacks b',' (ops.format_float x)

parse_floats-map :
    (ops : FloatOps) (s : List Float64)
    → All (IsReadable ops) s
    → parse_floats ops (map ops.format_float s) ≡ ok s
unfolding parse_floats
parse_floats-map ops [] h = refl
parse_floats-map ops (x ∷ s) ((p, _), h) = rw (p, parse_floats, parse_floats-map ops s h) refl

map-Lacks :
    (ops : FloatOps) (s : List Float64)
    → All (IsReadable ops) s
    → All (Lacks b',') (map ops.format_float s)
map-Lacks ops [] h = tt
map-Lacks ops (x ∷ s) ((_, q), h) = (q, map-Lacks ops s h)

-- A `Float64Slice` with at least one element, each of which strconv reads back from a format without
-- a comma, is read back from its text without an error.
pub floats_round_trip :
    (ops : FloatOps) (x : Float64) (s : List Float64)
    → All (IsReadable ops) (x ∷ s)
    → unmarshal_floats ops (marshal_floats ops (x ∷ s)) ≡ ok (x ∷ s)
unfolding unmarshal_floats marshal_floats
floats_round_trip ops x s h =
    ap (parse_floats ops)
      (split-join b',' (map ops.format_float (x ∷ s)) (cons-ne-nil _ _) (map-Lacks ops (x ∷ s) h))
    ∙ parse_floats-map ops (x ∷ s) h

-- A `StringSlice` with at least one element, none of which has a comma, is read back from its text;
-- every text is the text of the `StringSlice` that is read from it; and a `Float64Slice` with at
-- least one element, each of which strconv reads back from a format without a comma, is read back
-- from its text without an error.
pub slices_round_trip :
    (s : List Bytes) (text : Bytes) (ops : FloatOps) (x : Float64) (floats : List Float64)
    → s ≢ []
    → All (Lacks b',') s
    → All (IsReadable ops) (x ∷ floats)
    → (unmarshal_strings (marshal_strings s) ≡ s)
      × (marshal_strings (unmarshal_strings text) ≡ text)
      × (unmarshal_floats ops (marshal_floats ops (x ∷ floats)) ≡ ok (x ∷ floats))
slices_round_trip s text ops x floats ne h readable =
    let (read, written) = strings_round_trip s text ne h in
    (read, written, floats_round_trip ops x floats readable)
