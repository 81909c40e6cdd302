-- ===== src/Config/Integers.antt =====
-- The integers that flagSet of internal/config/flags.go takes from the environment.
use access_log_exporter.Prelude.{
  arith, ℕ, suc, ℤ, pos, negsuc, ◌+◌, ◌^◌, ◌<◌, ◌≡◌, refl, ◌∙◌, ap, ◌⊎◌, inl, inr, Bool, true,
  false, ◌∷◌, Option, none, some, Bytes, codes, ltb, ltb→lt, ◌==◌, Bool-cases,
}
use access_log_exporter.Nginx.Decimal.{decimal, parse_digits-decimal, decimal-cons}
use access_log_exporter.Config.Numbers.{parse_digits, parse_below, parse_uint, atoi, IsInt}
use access_log_exporter.Config.Sections.{Config}
use access_log_exporter.Config.Flags.{Host, Flag, buffer_size, worker, Variables, value_of}
use access_log_exporter.Config.FlagSet.{all_flags, set_defaults}
use access_log_exporter.Config.Variables.{value_of-set_defaults}
use access_log_exporter.Config.Environment.{in_environment, default_of-or_else}
use access_log_exporter.Config.Command.{or_else}

-- the number, if it is below the bound
abbrev found : ℕ → Bool → Option ℕ
found n is_below = elim is_below [ true ↦ some n | false ↦ none ]

abbrev below : ℕ → ℕ → Option ℕ
below bound n = found n (ltb n bound)

parse_below-decimal : (bound n : ℕ) → parse_below bound (decimal n) ≡ below bound n
unfolding parse_below
parse_below-decimal bound n =
    let (c, rest, digit, e) = decimal-cons n in
    let read : parse_digits 0 (c ∷ rest) ≡ some n = rw e at (parse_digits-decimal n) in
    rw (e, parse_below, read) refl

-- a number as it is written, with a minus in front if it is negative
abbrev pub written : ℤ → Bytes
written (pos n) = decimal n
written (negsuc n) = b'-' ∷ decimal (suc n)

atoi-pos :
    (n : ℕ) → atoi (decimal n) ≡ elim (below (2 ^ 63) n) [ none ↦ none | some m ↦ some (pos m) ]
unfolding atoi
atoi-pos n =
    let (c, rest, digit, e) = decimal-cons n in
    let minus : (c == b'-') ≡ false = ground arith in
    let plus : (c == b'+') ≡ false = ground arith in
    let read : parse_below (2 ^ 63) (c ∷ rest) ≡ below (2 ^ 63) n =
      rw e at (parse_below-decimal (2 ^ 63) n) in
    rw (e, atoi, minus, plus, read) refl

-- what is read of a text that an integer is written as
abbrev IsReadIf : {A : Type 0} → Type 0 → Option A → A → Type 0
IsReadIf IsIn read number = (IsIn × (read ≡ some number)) ⊎ ((¬ IsIn) × (read ≡ none))

parse_uint-decimal : (n : ℕ) → IsReadIf (n < 2 ^ 64) (parse_uint (decimal n)) n
unfolding parse_uint
parse_uint-decimal n = elim (Bool-cases (ltb n (2 ^ 64))) [
  | inl e ↦ inl (ltb→lt n (2 ^ 64) e, parse_below-decimal (2 ^ 64) n ∙ ap (found n) e)
  | inr e ↦ inr (ground arith, parse_below-decimal (2 ^ 64) n ∙ ap (found n) e)
]

atoi-written : (z : ℤ) → IsReadIf (IsInt z) (atoi (written z)) z
unfolding atoi
atoi-written (pos n) = elim (Bool-cases (ltb n (2 ^ 63))) [
  | inl e ↦ inl (ltb→lt n (2 ^ 63) e, rw (atoi-pos n, e) refl)
  | inr e ↦ inr (ground arith, rw (atoi-pos n, e) refl)
]
atoi-written (negsuc n) = elim (Bool-cases (ltb (suc n) (2 ^ 63 + 1))) [
  | inl e ↦ inl (ground arith, rw (parse_below-decimal (2 ^ 63 + 1) (suc n), atoi, e) refl)
  | inr e ↦ inr (ground arith, rw (parse_below-decimal (2 ^ 63 + 1) (suc n), atoi, e) refl)
]

-- the value is the number if it is in the range, else the value that was there
abbrev pub IsTakenIf : {A : Type 0} → Type 0 → A → A → A → Type 0
IsTakenIf IsIn value number old = (IsIn × (value ≡ number)) ⊎ ((¬ IsIn) × (value ≡ old))

taken :
    {A : Type 0} (IsIn : Type 0) (read : Option A) (number old : A)
    → IsReadIf IsIn read number
    → IsTakenIf IsIn (or_else read old) number old
taken IsIn read number old (inl (h, e)) = inl (h, ap (λ o. or_else o old) e)
taken IsIn read number old (inr (h, e)) = inr (h, ap (λ o. or_else o old) e)

default_lem :
    (host : Host) (v : Variables) (g : Flag)
    → value_of g (set_defaults host all_flags v) ≡ or_else (in_environment host g) (value_of g v)
default_lem host v g = value_of-set_defaults host g v ∙ default_of-or_else host g v

abbrev taken_from : {A : Type 0} → (Bytes → Option A) → A → Option Bytes → A
taken_from convert old text = or_else (elim text [ none ↦ none | some t ↦ convert t ]) old

-- Where CONFIG_BUFFER_SIZE holds a natural number and CONFIG_WORKER an integer, written in decimal:
-- behind `flagSet` the buffer size is this number if it is below 2 ^ 64, and the number of workers
-- is this integer if it is one of 64 bits; else they are what they were.
pub set_defaults-integers :
    (host : Host) (v : Variables) (n : ℕ) (z : ℤ)
    → host.lookup_env (codes "CONFIG_BUFFER_SIZE") ≡ some (decimal n)
    → host.lookup_env (codes "CONFIG_WORKER") ≡ some (written z)
    → let conf : Config = (set_defaults host all_flags v).conf in
      IsTakenIf (n < 2 ^ 64) conf.buffer_size n v.conf.buffer_size
      × IsTakenIf (IsInt z) conf.worker_count z v.conf.worker_count
unfolding in_environment value_of
set_defaults-integers host v n z size count =
    let e : (set_defaults host all_flags v).conf.buffer_size
        ≡ or_else (parse_uint (decimal n)) v.conf.buffer_size =
      default_lem host v buffer_size ∙ ap (taken_from parse_uint v.conf.buffer_size) size in
    let k : (set_defaults host all_flags v).conf.worker_count
        ≡ or_else (atoi (written z)) v.conf.worker_count =
      default_lem host v worker ∙ ap (taken_from atoi v.conf.worker_count) count in
    (
      rw e
          (taken (n < 2 ^ 64) (parse_uint (decimal n)) n v.conf.buffer_size (parse_uint-decimal n)),
      rw k (taken (IsInt z) (atoi (written z)) z v.conf.worker_count (atoi-written z)),
    )
