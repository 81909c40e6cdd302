-- ===== src/Config/Numbers.antt =====
-- strconv.ParseUint(s, 10, 0) and strconv.Atoi, which lookupEnvOrDefault of internal/config/config.go
-- calls, with integers of 64 bits.
use access_log_exporter.Prelude.{
  ℕ, zero, suc, ℤ, pos, negsuc, ◌+◌, ◌-◌, ◌*◌, ◌^◌, ◌<◌, ◌≡◌, refl, true, false, ◌&&◌, [], ◌∷◌,
  Option, none, some, Bytes, ltb, leb, ◌==◌, if◌then◌else◌,
}

-- decimal digits, behind the number read so far
unfoldable pub parse_digits : ℕ → Bytes → Option ℕ
parse_digits n [] = some n
parse_digits n (c ∷ s) = elim (leb b'0' c && leb c b'9') [
  | true ↦ parse_digits (n * 10 + (c - b'0')) s
  | false ↦ none
]

-- digits for a number below the bound; there has to be one
unfoldable pub parse_below : ℕ → Bytes → Option ℕ
unfolding parse_digits
parse_below bound [] = none
parse_below bound (c ∷ s) = elim (parse_digits 0 (c ∷ s)) [
  | none ↦ none
  | some n ↦ elim (ltb n bound) [ true ↦ some n | false ↦ none ]
]

unfoldable pub parse_uint : Bytes → Option ℕ
unfolding parse_below
parse_uint s = parse_below (2 ^ 64) s

abbrev pub negate : ℕ → ℤ
negate n = elim n [ zero ↦ pos 0 | suc k ↦ negsuc k ]

-- a sign, then digits: up to 2 ^ 63 - 1, and up to 2 ^ 63 behind a minus
unfoldable pub atoi : Bytes → Option ℤ
unfolding parse_below
atoi [] = none
atoi (c ∷ s) = elim (c == b'-') [
  | true ↦ elim (parse_below (2 ^ 63 + 1) s) [ none ↦ none | some n ↦ some (negate n) ]
  | false ↦ elim (parse_below (2 ^ 63) (if c == b'+' then s else c ∷ s)) [
    | none ↦ none
    | some n ↦ some (pos n)
  ]
]

test_atoi : atoi (45 ∷ 49 ∷ 50 ∷ []) ≡ some (negsuc 11)
unfolding atoi parse_below parse_digits
test_atoi = refl

-- what a Go `int` holds
abbrev pub IsInt : ℤ → Type 0
IsInt (pos n) = n < 2 ^ 63
IsInt (negsuc n) = n < 2 ^ 63
