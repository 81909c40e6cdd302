-- ===== src/Nginx/Scan.antt =====
-- fmt.Fscanf, with which parseStubStats of internal/nginx/collector.go reads the page of nginx, for a
-- format whose only verb is %d, on an input by its runes.
use access_log_exporter.Prelude.{
  ℕ, zero, suc, ℤ, pos, negsuc, ◌≡◌, refl, Bool, true, false, ◌&&◌, ◌||◌, not, List, [], ◌∷◌, ◌++◌,
  Option, none, some, Bytes, codes, leb, ◌==◌, is_empty, if◌then◌else◌,
}
use access_log_exporter.Config.Numbers.{atoi}

-- `isSpace`
unfoldable pub is_space : ℕ → Bool
is_space c =
    (leb 0x9 c && leb c 0xd)
    || c == 0x20
    || c == 0x85
    || c == 0xa0
    || c == 0x1680
    || (leb 0x2000 c && leb c 0x200a)
    || (leb 0x2028 c && leb c 0x2029)
    || c == 0x202f
    || c == 0x205f
    || c == 0x3000

-- the format, where a run of spaces is the number of its newlines and whether a space comes last
pub data Item : Type 0 where
  spaces : ℕ → Bool → Item
  literal : ℕ → Item
  verb : Item

unfoldable pub add_newline : List Item → List Item
add_newline (spaces n trailing ∷ items) = spaces (suc n) trailing ∷ items
add_newline items = spaces 1 false ∷ items

-- a space before a newline of the format is part of it
unfoldable pub add_space : List Item → List Item
add_space (spaces zero trailing ∷ items) = spaces 0 true ∷ items
add_space (spaces (suc n) trailing ∷ items) = spaces (suc n) trailing ∷ items
add_space items = spaces 0 true ∷ items

-- the items of a format; the rune behind a % is its verb
unfoldable pub items_of : Bytes → List Item
unfolding add_newline add_space is_space
items_of [] = []
items_of (c ∷ []) =
    if c == 10 then add_newline [] else if is_space c then add_space [] else literal c ∷ []
items_of (c ∷ d ∷ s) =
    let rest = items_of (d ∷ s) in
    let behind = items_of s in
    if c == 10
    then add_newline rest
    else if is_space c
    then add_space rest
    else if c == b'%'
    then verb ∷ behind
    else literal c ∷ rest

-- a newline of the format: spaces up to a newline, or up to the end
unfoldable pub skip_line : Bytes → Option Bytes
unfolding is_space
skip_line [] = some []
skip_line (c ∷ s) = elim (c == 10) [
  | true ↦ some s
  | false ↦ elim (is_space c) [ true ↦ skip_line s | false ↦ none ]
]

unfoldable pub skip_lines : ℕ → Bytes → Option Bytes
unfolding skip_line
skip_lines zero s = some s
skip_lines (suc n) s = elim (skip_line s) [ none ↦ none | some rest ↦ skip_lines n rest ]

unfoldable pub skip_blanks : Bytes → Bytes
unfolding is_space
skip_blanks [] = []
skip_blanks (c ∷ s) = elim (is_space c && not (c == 10)) [ true ↦ skip_blanks s | false ↦ c ∷ s ]

-- a run of spaces of the format; one without a newline needs a space or the end
unfoldable pub skip_run : ℕ → Bool → Bytes → Option Bytes
unfolding skip_lines skip_blanks
skip_run n false s = skip_lines n s
skip_run zero true [] = some []
skip_run zero true (c ∷ s) = if is_space c && not (c == 10) then some (skip_blanks s) else none
skip_run (suc n) true s = elim (skip_lines (suc n) s) [
  | none ↦ none
  | some rest ↦ some (skip_blanks rest)
]

-- `SkipSpace`: a newline is an error
unfoldable pub skip_space : Bytes → Option Bytes
unfolding is_space
skip_space [] = some []
skip_space (c ∷ s) = elim (c == 10) [
  | true ↦ none
  | false ↦ elim (is_space c) [ true ↦ skip_space s | false ↦ some (c ∷ s) ]
]

-- `accept(sign)`
unfoldable pub take_sign : Bytes → Bytes × Bytes
take_sign [] = ([], [])
take_sign (c ∷ s) = if c == b'+' || c == b'-' then (c ∷ [], s) else ([], c ∷ s)

-- `scanNumber`, up to its test for a digit
unfoldable pub take_digits : Bytes → Bytes × Bytes
take_digits [] = ([], [])
take_digits (c ∷ s) = elim (leb b'0' c && leb c b'9') [
  | true ↦ (c ∷ (take_digits s).0, (take_digits s).1)
  | false ↦ ([], c ∷ s)
]

-- the number of a token, read by `ParseInt` in 64 bits
unfoldable pub number_of : Bytes → Bytes × Bytes → Option (ℤ × Bytes)
number_of sign (digits, rest) = elim (is_empty digits) [
  | true ↦ none
  | false ↦ elim (atoi (sign ++ digits)) [ none ↦ none | some i ↦ some (i, rest) ]
]

-- `scanInt` with %d
unfoldable pub scan_int : Bytes → Option (ℤ × Bytes)
unfolding skip_space take_sign take_digits number_of
scan_int input = elim (skip_space input) [
  | none ↦ none
  | some s ↦ number_of (take_sign s).0 (take_digits (take_sign s).1)
]

-- the numbers of an input that matches the items
unfoldable pub scan : List Item → Bytes → Option (List ℤ)
unfolding skip_run scan_int
scan [] input = some []
scan (spaces n trailing ∷ items) input = elim (skip_run n trailing input) [
  | none ↦ none
  | some rest ↦ scan items rest
]
scan (literal c ∷ items) [] = none
scan (literal c ∷ items) (d ∷ s) = elim (c == d) [ true ↦ scan items s | false ↦ none ]
scan (verb ∷ items) input = elim (scan_int input) [
  | none ↦ none
  | some (i, rest) ↦ elim (scan items rest) [ none ↦ none | some is ↦ some (i ∷ is) ]
]

test_scan :
    scan (items_of (codes "a: %d \n%d")) (codes "a:  7\t\n -12x") ≡ some (pos 7 ∷ negsuc 11 ∷ [])
unfolding scan items_of atoi
test_scan = refl
