-- ===== src/Float.antt =====
-- Go's float64. A value is its IEEE 754 bit pattern, a number below 2 ^ 64: the sign, eleven bits
-- of exponent, 52 of fraction. The tests against zero are read off the pattern; the arithmetic of
-- the hardware and the conversions of package strconv are the functions of a record.
use access_log_exporter.Prelude.{ℕ, ◌%◌, ◌^◌, Bool, not, ◌&&◌, Option, Bytes, ltb, leb, ◌==◌}

abbrev pub Float64 : Type 0
Float64 = ℕ

-- the pattern without its sign
magnitude : Float64 → ℕ
magnitude x = x % 2 ^ 63

-- `x == 0`, also for the negative zero
unfoldable pub is_zero : Float64 → Bool
unfolding magnitude
is_zero x = magnitude x == 0

unfoldable pub is_nan : Float64 → Bool
unfolding magnitude
is_nan x = ltb 0x7ff0000000000000 (magnitude x)

-- `x < 0`: the sign is set, and the value is neither zero nor NaN
unfoldable pub is_negative : Float64 → Bool
unfolding is_zero is_nan
is_negative x = leb (2 ^ 63) x && not (is_zero x) && not (is_nan x)

pub record FloatOps : Type 0 where
  -- strconv.ParseFloat(s, 64); `none` is an error
  pub parse_float : Bytes → Option Float64
  -- strconv.FormatFloat(x, 'g', -1, 64)
  pub format_float : Float64 → Bytes
  pub mul : Float64 → Float64 → Float64
  pub div : Float64 → Float64 → Float64
