-- ===== src/Config/Literals.antt =====
-- strconv.ParseUint and strconv.ParseInt with base 0 and 64 bits, with which package flag reads an
-- integer, and slog.Level's parse.
use access_log_exporter.Prelude.{
  ℕ, ℤ, pos, negsuc, ◌+◌, ◌-◌, ◌*◌, ◌^◌, ◌≡◌, refl, Bool, true, false, not, ◌&&◌, ◌||◌, [], ◌∷◌,
  ◌++◌, Option, none, some, Bytes, codes, str_eq, ltb, leb, ◌==◌, if◌then◌else◌,
}
use access_log_exporter.Config.Lookup.{to_upper}
use access_log_exporter.Config.Numbers.{negate, atoi}

-- `lower`, which is meant for letters
abbrev lower : ℕ → ℕ
lower c = if leb 64 c && ltb c 91 then c + 32 else c

-- the value of a digit, up to 35
unfoldable pub digit_of : ℕ → Option ℕ
digit_of c =
    if leb b'0' c && leb c b'9'
    then some (c - b'0')
    else if leb b'a' (lower c) && leb (lower c) b'z'
    then some (lower c - b'a' + 10)
    else none

-- the digits and underscores of `ParseUint`, behind the number read so far
unfoldable pub parse_based : ℕ → ℕ → Bytes → Option ℕ
unfolding digit_of
parse_based base n [] = some n
parse_based base n (c ∷ s) = elim (c == b'_') [
  | true ↦ parse_based base n s
  | false ↦ elim (digit_of c) [
    | none ↦ none
    | some d ↦ elim (ltb d base) [ false ↦ none | true ↦ parse_based base (n * base + d) s ]
  ]
]

-- what `underscoreOK` has seen last: the beginning, a digit, an underscore, or something else
pub data Saw : Type 0 where
  beginning digit underscore other : Saw

abbrev is_digit : Bool → ℕ → Bool
is_digit hex c = (leb b'0' c && leb c b'9') || (hex && leb b'a' (lower c) && leb (lower c) b'f')

abbrev is_seen_digit : Saw → Bool
is_seen_digit digit = true
is_seen_digit _ = false

abbrev is_seen_underscore : Saw → Bool
is_seen_underscore underscore = true
is_seen_underscore _ = false

-- the loop of `underscoreOK`
unfoldable pub underscores_ok : Bool → Saw → Bytes → Bool
underscores_ok hex saw [] = not (is_seen_underscore saw)
underscores_ok hex saw (c ∷ s) = elim (is_digit hex c) [
  | true ↦ underscores_ok hex digit s
  | false ↦ elim (c == b'_') [
    | true ↦ elim (is_seen_digit saw) [ false ↦ false | true ↦ underscores_ok hex underscore s ]
    | false ↦ elim (is_seen_underscore saw) [ true ↦ false | false ↦ underscores_ok hex other s ]
  ]
]

-- the digits in their base, below 2 ^ 64, where underscores stand only between digits
unfoldable pub based : ℕ → Bool → Saw → Bytes → Option ℕ
unfolding parse_based underscores_ok
based base hex saw s = elim (parse_based base 0 s) [
  | none ↦ none
  | some n ↦ if ltb n (2 ^ 64) && underscores_ok hex saw s then some n else none
]

-- `ParseUint(s, 0, 64)`: the base by the prefix
unfoldable pub parse_uint_literal : Bytes → Option ℕ
unfolding based
parse_uint_literal [] = none
parse_uint_literal (c ∷ []) = based (if c == b'0' then 8 else 10) false beginning (c ∷ [])
parse_uint_literal (c ∷ x ∷ []) = based (if c == b'0' then 8 else 10) false beginning (c ∷ x ∷ [])
parse_uint_literal (c ∷ x ∷ d ∷ s) =
    if not (c == b'0')
    then based 10 false beginning (c ∷ x ∷ d ∷ s)
    else if lower x == b'b'
    then based 2 false digit (d ∷ s)
    else if lower x == b'o'
    then based 8 false digit (d ∷ s)
    else if lower x == b'x'
    then based 16 true digit (d ∷ s)
    else based 8 false beginning (c ∷ x ∷ d ∷ s)

-- `ParseInt(s, 0, 64)`
unfoldable pub parse_int_literal : Bytes → Option ℤ
unfolding parse_uint_literal
parse_int_literal [] = none
parse_int_literal (c ∷ s) = elim (c == b'-') [
  | true ↦ elim (parse_uint_literal s) [
    | none ↦ none
    | some n ↦ if leb n (2 ^ 63) then some (negate n) else none
  ]
  | false ↦ elim (parse_uint_literal (if c == b'+' then s else c ∷ s)) [
    | none ↦ none
    | some n ↦ if ltb n (2 ^ 63) then some (pos n) else none
  ]
]

-- `strings.ToUpper` as far as a level can come of it: of the ASCII letters, and of the dotless i
-- (U+0131, of two bytes), which becomes "I"
unfoldable pub upper_name : Bytes → Bytes
unfolding to_upper
upper_name [] = []
upper_name (c ∷ []) = to_upper (c ∷ [])
upper_name (c ∷ d ∷ s) = elim (c == 196 && d == 177) [
  | true ↦ b'I' ∷ upper_name s
  | false ↦ to_upper (c ∷ []) ++ upper_name (d ∷ s)
]

-- the text before the first sign and, if there is one, the text from it on
unfoldable pub cut_sign : Bytes → Bytes × Option Bytes
cut_sign [] = ([], none)
cut_sign (c ∷ s) = elim (c == b'+' || c == b'-') [
  | true ↦ ([], some (c ∷ s))
  | false ↦ (c ∷ (cut_sign s).0, (cut_sign s).1)
]

-- the offset is added to a level with the wrap-around of 64 bits
unfoldable pub level_plus : ℕ → ℤ → ℤ
level_plus level (pos n) =
    if ltb (level + n) (2 ^ 63) then pos (level + n) else negsuc (2 ^ 64 - 1 - (level + n))
level_plus level (negsuc n) = if ltb n level then pos (level - n - 1) else negsuc (n - level)

-- the level of `slog.LevelDebug`, -4, plus an offset
unfoldable pub debug_plus : ℤ → ℤ
debug_plus (pos n) = if ltb n 4 then negsuc (3 - n) else pos (n - 4)
debug_plus (negsuc n) = if ltb (n + 4) (2 ^ 63) then negsuc (n + 4) else pos (2 ^ 64 - 1 - (n + 4))

unfoldable pub named_level : Bytes → ℤ → Option ℤ
unfolding level_plus debug_plus
named_level name offset =
    if str_eq name (codes "DEBUG")
    then some (debug_plus offset)
    else if str_eq name (codes "INFO")
    then some (level_plus 0 offset)
    else if str_eq name (codes "WARN")
    then some (level_plus 4 offset)
    else if str_eq name (codes "ERROR")
    then some (level_plus 8 offset)
    else none

-- `Level.UnmarshalText`
unfoldable pub parse_level : Bytes → Option ℤ
unfolding cut_sign named_level upper_name
parse_level s = elim (cut_sign s).1 [
  | none ↦ named_level (upper_name (cut_sign s).0) (pos 0)
  | some sign ↦ elim (atoi sign) [
    | none ↦ none
    | some offset ↦ named_level (upper_name (cut_sign s).0) offset
  ]
]

test_parse_level : parse_level (codes "warn+2") ≡ some (pos 6)
unfolding parse_level atoi str_eq
test_parse_level = refl

test_parse_int_literal : parse_int_literal (codes "-0x_1F") ≡ some (negsuc 30)
unfolding parse_int_literal
test_parse_int_literal = refl

-- "ınfo", with a dotless i
test_dotless : parse_level (196 ∷ 177 ∷ codes "nfo") ≡ some (pos 0)
unfolding parse_level upper_name cut_sign named_level str_eq
test_dotless = refl
