-- ===== src/Config/Slices.antt =====
-- StringSlice and Float64Slice of internal/config/types/slice.go, as text, JSON and YAML. Parsing and
-- printing of floats are those of `FloatOps`.
use access_log_exporter.Prelude.{
  List, [], ◌∷◌, Option, none, some, Bytes, map, Result, ok, err, ◌>>=◌,
}
use access_log_exporter.Strings.Split.{split, join}
use access_log_exporter.Float.{Float64, FloatOps}

-- `StringSlice.String` and `MarshalText`
unfoldable pub marshal_strings : List Bytes → Bytes
marshal_strings s = join s b','

-- `StringSlice.UnmarshalText`
unfoldable pub unmarshal_strings : Bytes → List Bytes
unmarshal_strings text = split text b','

-- `Float64Slice.String` and `MarshalText`
unfoldable pub marshal_floats : FloatOps → List Float64 → Bytes
marshal_floats ops s = join (map ops.format_float s) b','

-- the loop of `Float64Slice.UnmarshalText`; its error holds the text that is no float
unfoldable pub parse_floats : FloatOps → List Bytes → Result Bytes (List Float64)
parse_floats ops [] = ok []
parse_floats ops (string_float ∷ rest) = elim (ops.parse_float string_float) [
  | none ↦ err string_float
  | some value ↦ do values ← parse_floats ops rest; ok (value ∷ values)
]

unfoldable pub unmarshal_floats : FloatOps → Bytes → Result Bytes (List Float64)
unmarshal_floats ops text = parse_floats ops (split text b',')

-- The JSON and YAML forms. The decoder gives the slice that it leaves in the variable, which was nil,
-- and its error if it has one. With either, the receiver is the variable.
module _ {Error : Type 0} where
  -- `StringSlice.UnmarshalJSON`
  unfoldable pub unmarshal_strings_json :
      (Bytes → List Bytes × Option Error) → Bytes → List Bytes → List Bytes × Option Error
  unmarshal_strings_json decode json_bytes receiver = decode json_bytes

  -- `Float64Slice.UnmarshalJSON`
  unfoldable pub unmarshal_floats_json :
      (Bytes → List Float64 × Option Error) → Bytes → List Float64 → List Float64 × Option Error
  unmarshal_floats_json decode json_bytes receiver = decode json_bytes

  module _ {Node : Type 0} where
    -- `StringSlice.UnmarshalYAML`
    unfoldable pub unmarshal_strings_yaml :
        (Node → List Bytes × Option Error) → Node → List Bytes → List Bytes × Option Error
    unmarshal_strings_yaml decode node receiver = decode node

    -- `Float64Slice.UnmarshalYAML`
    unfoldable pub unmarshal_floats_yaml :
        (Node → List Float64 × Option Error) → Node → List Float64 → List Float64 × Option Error
    unmarshal_floats_yaml decode node receiver = decode node
