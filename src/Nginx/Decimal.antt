-- ===== src/Nginx/Decimal.antt =====
-- Decimal numbers, written as nginx writes them and read by the scanner of internal/nginx/collector.go.
use access_log_exporter.Prelude.{
  arith, ℕ, zero, suc, ℤ, pos, ◌+◌, ◌*◌, ◌/◌, ◌%◌, ◌^◌, ◌<◌, ◌≡◌, refl, ◌∙◌, ap, inl, inr, true,
  false, ◌&&◌, List, [], ◌∷◌, ◌++◌, Option, none, some, Bytes, leb, ltb, lt→ltb, ◌==◌, All,
  Bool-cases,
}
use access_log_exporter.Config.Numbers.{parse_digits, parse_below, atoi}
use access_log_exporter.Nginx.Scan.{
  is_space, skip_space, take_sign, take_digits, number_of, scan_int, Item, verb, spaces,
  skip_blanks, skip_run, scan,
}

-- the decimal digits of a number in front of a text, with fuel
unfoldable decimal_from : ℕ → ℕ → Bytes → Bytes
decimal_from zero n s = s
decimal_from (suc fuel) n s = elim (ltb n 10) [
  | true ↦ (b'0' + n) ∷ s
  | false ↦ decimal_from fuel (n / 10) ((b'0' + n % 10) ∷ s)
]

-- A number has fewer digits than its successor counts.
pub decimal : ℕ → Bytes
unfolding decimal_from
decimal n = decimal_from (suc n) n []

abbrev pub IsDigit : ℕ → Type 0
IsDigit c = (leb b'0' c && leb c b'9') ≡ true

small-IsDigit : (d : ℕ) → d < 10 → IsDigit (b'0' + d)
small-IsDigit d h = ground arith

parse_digits-step :
    (n d : ℕ) (s : Bytes) → d < 10 → parse_digits n ((b'0' + d) ∷ s) ≡ parse_digits (n * 10 + d) s
unfolding parse_digits
parse_digits-step n d s h =
    rw (small-IsDigit d h, parse_digits) (ap (λ (m : ℕ). parse_digits m s) (omega arith))

parse_digits-decimal_from :
    (fuel n : ℕ) (s : Bytes) → n < fuel → parse_digits 0 (decimal_from fuel n s) ≡ parse_digits n s
unfolding decimal_from
parse_digits-decimal_from zero n s h = absurd (omega arith)
parse_digits-decimal_from (suc fuel) n s h = elim (Bool-cases (ltb n 10)) [
  | inl e ↦
      rw (e, decimal_from)
        (parse_digits-step 0 n s (ground arith) ∙ ap (λ (m : ℕ). parse_digits m s) (omega arith))
  | inr e ↦
      rw (e, decimal_from)
        (parse_digits-decimal_from fuel (n / 10) ((b'0' + n % 10) ∷ s) (ground arith)
          ∙ parse_digits-step (n / 10) (n % 10) s (omega arith)
          ∙ ap (λ (m : ℕ). parse_digits m s) (omega arith))
]

-- digits, at least one
abbrev IsNumber : Bytes → Type 0
IsNumber [] = ⊥
IsNumber (c ∷ s) = IsDigit c × All IsDigit s

decimal_from-IsNumber :
    (fuel n : ℕ) (s : Bytes) → n < fuel → All IsDigit s → IsNumber (decimal_from fuel n s)
unfolding decimal_from
decimal_from-IsNumber zero n s h digits = absurd (omega arith)
decimal_from-IsNumber (suc fuel) n s h digits = elim (Bool-cases (ltb n 10)) [
  | inl e ↦ rw (e, decimal_from) (small-IsDigit n (ground arith), digits)
  | inr e ↦
      rw (e, decimal_from)
        (decimal_from-IsNumber fuel (n / 10) ((b'0' + n % 10) ∷ s) (ground arith)
          (small-IsDigit (n % 10) (omega arith), digits))
]

pub parse_digits-decimal : (n : ℕ) → parse_digits 0 (decimal n) ≡ some n
unfolding decimal parse_digits
parse_digits-decimal n = parse_digits-decimal_from (suc n) n [] (omega arith)

IsNumber-cons : (s : Bytes) → IsNumber s → (c : ℕ) × (rest : Bytes) × IsDigit c × (s ≡ c ∷ rest)
IsNumber-cons [] h = absurd h
IsNumber-cons (c ∷ s) h = (c, s, h.0, refl)

-- a number begins with a digit
pub decimal-cons : (n : ℕ) → (c : ℕ) × (rest : Bytes) × IsDigit c × (decimal n ≡ c ∷ rest)
unfolding decimal
decimal-cons n = IsNumber-cons (decimal n) (decimal_from-IsNumber (suc n) n [] (omega arith) tt)

-- a text that goes on with no digit
abbrev pub StopsDigits : Bytes → Type 0
StopsDigits [] = Unit
StopsDigits (c ∷ s) = (leb b'0' c && leb c b'9') ≡ false

take_digits-append :
    (digits rest : Bytes)
    → All IsDigit digits
    → StopsDigits rest
    → take_digits (digits ++ rest) ≡ (digits, rest)
unfolding take_digits
take_digits-append [] [] h stops = refl
take_digits-append [] (c ∷ rest) h stops = rw (stops, take_digits) refl
take_digits-append (c ∷ digits) rest (d, h) stops =
    rw (d, take_digits)
      (ap (λ (p : Bytes × Bytes). (c ∷ p.0, p.1)) (take_digits-append digits rest h stops))

atoi-digits :
    (digits : Bytes) (n : ℕ)
    → IsNumber digits
    → parse_digits 0 digits ≡ some n
    → n < 2 ^ 63
    → atoi digits ≡ some (pos n)
unfolding atoi parse_below
atoi-digits [] n h e lt = absurd h
atoi-digits (c ∷ s) n (d, h) e lt =
    let minus : (c == b'-') ≡ false = ground arith in
    let plus : (c == b'+') ≡ false = ground arith in
    rw (minus, atoi, plus, e, lt→ltb n (2 ^ 63) lt) refl

skip_space-digit : (c : ℕ) (s : Bytes) → IsDigit c → skip_space (c ∷ s) ≡ some (c ∷ s)
unfolding skip_space is_space
skip_space-digit c s d = ground arith

take_sign-digit : (c : ℕ) (s : Bytes) → IsDigit c → take_sign (c ∷ s) ≡ ([], c ∷ s)
unfolding take_sign
take_sign-digit c s d = ground arith

number_of-digits :
    (digits rest : Bytes) (n : ℕ)
    → IsNumber digits
    → atoi digits ≡ some (pos n)
    → number_of [] (digits, rest) ≡ some (pos n, rest)
unfolding number_of
number_of-digits [] rest n h e = absurd h
number_of-digits (c ∷ s) rest n h e = rw (e, number_of) refl

scan_int-digits :
    (digits rest : Bytes) (n : ℕ)
    → IsNumber digits
    → parse_digits 0 digits ≡ some n
    → n < 2 ^ 63
    → StopsDigits rest
    → scan_int (digits ++ rest) ≡ some (pos n, rest)
unfolding scan_int
scan_int-digits [] rest n h e lt stops = absurd h
scan_int-digits (c ∷ s) rest n (d, h) e lt stops =
    let start = skip_space-digit c (s ++ rest) d in
    let sign = take_sign-digit c (s ++ rest) d in
    let digits = take_digits-append (c ∷ s) rest (d, h) stops in
    rw (start, scan_int, sign, digits)
      (number_of-digits (c ∷ s) rest n (d, h) (atoi-digits (c ∷ s) n (d, h) e lt))

-- a number where the text goes on with no digit is read as it was written
pub scan_int-decimal :
    (n : ℕ) (rest : Bytes)
    → n < 2 ^ 63
    → StopsDigits rest
    → scan_int (decimal n ++ rest) ≡ some (pos n, rest)
unfolding decimal parse_digits
scan_int-decimal n rest lt stops =
    scan_int-digits (decimal n) rest n (decimal_from-IsNumber (suc n) n [] (omega arith) tt)
      (parse_digits-decimal_from (suc n) n [] (omega arith)) lt stops

pub scan_int-space : (s : Bytes) → scan_int (b' ' ∷ s) ≡ scan_int s
unfolding scan_int skip_space is_space
scan_int-space s = refl

-- what is read behind a number
abbrev pub add_number : ℕ → Option (List ℤ) → Option (List ℤ)
add_number n none = none
add_number n (some is) = some (pos n ∷ is)

added :
    (n : ℕ) (o : Option (List ℤ))
    → elim o [ none ↦ none | some is ↦ some (pos n ∷ is) ] ≡ add_number n o
added n none = refl
added n (some is) = refl

pub scan-decimal :
    (n : ℕ) (items : List Item) (rest : Bytes)
    → n < 2 ^ 63
    → StopsDigits rest
    → scan (verb ∷ items) (decimal n ++ rest) ≡ add_number n (scan items rest)
unfolding scan
scan-decimal n items rest lt stops =
    rw (scan_int-decimal n rest lt stops, scan) (added n (scan items rest))

skip_blanks-digits :
    (digits rest : Bytes) → IsNumber digits → skip_blanks (digits ++ rest) ≡ digits ++ rest
unfolding skip_blanks is_space
skip_blanks-digits [] rest h = absurd h
skip_blanks-digits (c ∷ s) rest (d, h) = ground arith

-- a space of the format in front of the number
pub scan-spaced :
    (n : ℕ) (items : List Item) (rest : Bytes)
    → n < 2 ^ 63
    → StopsDigits rest
    → scan (spaces 0 true ∷ verb ∷ items) (b' ' ∷ (decimal n ++ rest))
      ≡ add_number n (scan items rest)
unfolding scan skip_run decimal is_space
scan-spaced n items rest lt stops =
    ap (scan (verb ∷ items))
      (skip_blanks-digits (decimal n) rest (decimal_from-IsNumber (suc n) n [] (omega arith) tt))
    ∙ scan-decimal n items rest lt stops

pub scan-space :
    (items : List Item) (s : Bytes) → scan (verb ∷ items) (b' ' ∷ s) ≡ scan (verb ∷ items) s
unfolding scan
scan-space items s = rw (scan_int-space s) refl
