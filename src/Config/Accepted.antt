-- ===== src/Config/Accepted.antt =====
-- What `Parse` accepts of the flags of internal/config/flags.go.
use access_log_exporter.Prelude.{
  ◌≡◌, refl, ◌∙◌, ap, sym, inl, inr, ◌⊎◌, Bool, true, false, ◌||◌, List, [], ◌∷◌, ◌++◌, Option,
  none, some, Bytes, codes, ℕ, ok, ok-injective, All, str_eq, str_eq_iff, Bool-cases, Option-cases,
  ◌==◌, ==_iff,
}
use access_log_exporter.Strings.Search.{cut}
use access_log_exporter.Config.Flags.{Host, Flag, Variables, Value, value_of, put, read, name_of}
use access_log_exporter.Config.FlagSet.{
  all_flags, find_flag, is_bool_flag, Argument, names, ends, malformed, read_name, read_argument,
  parse_flags,
}
use access_log_exporter.Config.Variables.{dashed}
use access_log_exporter.Config.Command.{
  documented_name_lem, Setting, joined, apart, bare, IsSetting, Stops, spell, chosen, or_else,
  parse_flags-spell,
}

cut_inverse :
    (s before after : Bytes) (sep : ℕ)
    → cut s sep ≡ some (before, after)
    → s ≡ before ++ sep ∷ after
unfolding cut
cut_inverse [] before after sep e = cc
cut_inverse (c ∷ s) before after sep e = elim (Bool-cases (c == sep)) [
  | inl q ↦ let p : c ≡ sep = (==_iff c sep).0 q in cc (rw (q, cut) at e)
  | inr q ↦ elim (Option-cases (cut s sep)) [
    | inl n ↦ cc (rw (q, cut, n) at e)
    | inr ((before', after'), n) ↦ cc (rw (q, cut, n) at e, cut_inverse s before' after' sep n)
  ]
]

-- how a name and its value are written
abbrev written : Bytes → Option Bytes → Bytes
written name none = name
written name (some value) = name ++ b'=' ∷ value

named :
    (name : Bytes) (given : Option Bytes) (other : Bytes) (value : Option Bytes)
    → names other value ≡ names name given
    → written other value ≡ written name given
named name given other value e = cc

read_name_inverse :
    (s name : Bytes) (given : Option Bytes)
    → read_name s ≡ names name given
    → s ≡ written name given
unfolding read_name
read_name_inverse [] name given e = cc
read_name_inverse (c ∷ s) name given e = elim (Bool-cases (c == b'-' || c == b'=')) [
  | inl q ↦ cc (rw (q, read_name) at e)
  | inr q ↦ elim (Option-cases (cut s b'=')) [
    | inl n ↦ named name given (c ∷ s) none (rw (q, read_name, n) at e)
    | inr ((before, after), n) ↦
        ap (◌∷◌ c) (cut_inverse s before after b'=' n)
        ∙ named name given (c ∷ before) (some after) (rw (q, read_name, n) at e)
  ]
]

one_dash :
    (a : ℕ) (s name : Bytes) (given : Option Bytes)
    → a == b'-' ≡ true
    → read_name s ≡ names name given
    → a ∷ s ≡ b'-' ∷ written name given
one_dash a s name given q e =
    ap (λ (x : ℕ). x ∷ s) ((==_iff a b'-').0 q) ∙ ap (◌∷◌ b'-') (read_name_inverse s name given e)

read_argument_inverse :
    (arg name : Bytes) (given : Option Bytes)
    → read_argument arg ≡ names name given
    → (two : Bool) × (arg ≡ dashed two (written name given))
unfolding read_argument dashed
read_argument_inverse [] name given e = cc
read_argument_inverse (a ∷ []) name given e = cc
read_argument_inverse (a ∷ b ∷ []) name given e = elim (Bool-cases (a == b'-')) [
  | inr q ↦ cc (rw (q, read_argument) at e)
  | inl q ↦ elim (Bool-cases (b == b'-')) [
    | inl r ↦ cc (rw (q, read_argument, r) at e)
    | inr r ↦ (false, one_dash a (b ∷ []) name given q (rw (q, read_argument, r) at e))
  ]
]
read_argument_inverse (a ∷ b ∷ c ∷ s) name given e = elim (Bool-cases (a == b'-')) [
  | inr q ↦ cc (rw (q, read_argument) at e)
  | inl q ↦ elim (Bool-cases (b == b'-')) [
    | inl r ↦ (
      true,
      ap (λ (x : ℕ). x ∷ b ∷ c ∷ s) ((==_iff a b'-').0 q)
          ∙ ap (◌∷◌ b'-') (one_dash b (c ∷ s) name given r (rw (q, read_argument, r) at e)),
    )
    | inr r ↦ (false, one_dash a (b ∷ c ∷ s) name given q (rw (q, read_argument, r) at e))
  ]
]

find_flag_inverse :
    (flags : List Flag) (name : Bytes) (f : Flag) → find_flag flags name ≡ some f → name_of f ≡ name
unfolding find_flag
find_flag_inverse [] name f e = cc
find_flag_inverse (g ∷ flags) name f e = elim (Bool-cases (str_eq (name_of g) name)) [
  | inl q ↦ cc (rw (q, find_flag) at e, (str_eq_iff (name_of g) name).0 q)
  | inr q ↦ find_flag_inverse flags name f (rw (q, find_flag) at e)
]

-- what an accepted command line is, where a flag may wait for its value
unfoldable Accepted : Host → Option Flag → List Bytes → Type 0
Accepted host none args =
    (settings : List Setting) × (rest : List Bytes) × (args ≡ spell settings ++ rest)
    × All (IsSetting host) settings
    × Stops rest
Accepted host (some f) args =
    (text : Bytes) × (a : Value f) × (settings : List Setting) × (rest : List Bytes) × (args
      ≡ text ∷ (spell settings ++ rest))
    × (read host f text ≡ some a)
    × All (IsSetting host) settings
    × Stops rest

-- the argument that names a flag, in front of what is accepted behind it
module _ (host : Host) (f : Flag) (two : Bool) (arg : Bytes) (args : List Bytes) where
  accept-joined :
      (value : Bytes) (a : Value f)
      → arg ≡ dashed two (name_of f ++ b'=' ∷ value)
      → read host f value ≡ some a
      → Accepted host none args
      → Accepted host none (arg ∷ args)
  unfolding Accepted spell
  accept-joined value a e r (settings, rest, p, h, stops) =
      (joined two f value ∷ settings, rest, cc (documented_name_lem f), ((tt, (a, r)), h), stops)

  accept-bare :
      (a : Value f)
      → arg ≡ dashed two (name_of f)
      → is_bool_flag f ≡ true
      → read host f (codes "true") ≡ some a
      → Accepted host none args
      → Accepted host none (arg ∷ args)
  unfolding Accepted spell
  accept-bare a e b r (settings, rest, p, h, stops) =
      (bare two f ∷ settings, rest, cc (documented_name_lem f), ((b, (a, r)), h), stops)

  accept-apart :
      arg ≡ dashed two (name_of f)
      → is_bool_flag f ≡ false
      → Accepted host (some f) args
      → Accepted host none (arg ∷ args)
  unfolding Accepted spell
  accept-apart e b (text, a, settings, rest, p, r, h, stops) =
      (apart two f text ∷ settings, rest, cc (documented_name_lem f), ((b, (a, r)), h), stops)

Argument-cases :
    (arg : Argument)
    → (arg ≡ ends)
      ⊎ (arg ≡ malformed)
      ⊎ ((name : Bytes) × (given : Option Bytes) × (arg ≡ names name given))
Argument-cases ends = inl refl
Argument-cases malformed = inr (inl refl)
Argument-cases (names name given) = inr (inr (name, given, refl))

accepted :
    (host : Host) (waiting : Option Flag) (v result : Variables) (args : List Bytes)
    → parse_flags host waiting v args ≡ ok result
    → Accepted host waiting args
unfolding parse_flags Accepted spell
accepted host none v result [] e = ([], [], refl, tt, tt)
accepted host (some f) v result [] e = cc
accepted host (some f) v result (value ∷ args) e = elim (Option-cases (read host f value)) [
  | inl n ↦ cc (rw (n, parse_flags) at e)
  | inr (a, n) ↦
      let (settings, rest, p, h, stops) =
        accepted host none (put f a v) result args (rw (n, parse_flags) at e) in
      (value, a, settings, rest, cc, n, h, stops)
]
accepted host none v result (arg ∷ args) e = elim (Argument-cases (read_argument arg)) [
  | inl p ↦ ([], arg ∷ args, refl, tt, p)
  | inr (inl p) ↦ cc (rw (p, parse_flags) at e)
  | inr (inr (name, given, p)) ↦ elim (Option-cases (find_flag all_flags name)) [
    | inl q ↦ cc (rw (p, parse_flags, q) at e)
    | inr (f, q) ↦
        let n = find_flag_inverse all_flags name f q in
        let (two, w) = read_argument_inverse arg name given p in
        elim (Option-cases given) [
          | inr (value, g) ↦ elim (Option-cases (read host f value)) [
            | inl r ↦ cc (rw (p, parse_flags, q, g, r) at e)
            | inr (a, r) ↦
                accept-joined host f two arg args value a (w ∙ rw (g, ← n) refl) r
                  (accepted host none (put f a v) result args (rw (p, parse_flags, q, g, r) at e))
          ]
          | inl g ↦ elim (Bool-cases (is_bool_flag f)) [
            | inr b ↦
                accept-apart host f two arg args (w ∙ rw (g, ← n) refl) b
                  (accepted host (some f) v result args (rw (p, parse_flags, q, g, b) at e))
            | inl b ↦ elim (Option-cases (read host f (codes "true"))) [
              | inl r ↦ cc (rw (p, parse_flags, q, g, b, r) at e)
              | inr (a, r) ↦ accept-bare host f two arg args a (w ∙ rw (g, ← n) refl) b r (
                  accepted host none (put f a v) result args (rw (p, parse_flags, q, g, b, r) at e))
            ]
          ]
        ]
  ]
]

-- The loop of `Parse` succeeds only on settings that can be read, followed by arguments that end the
-- flags, and it then gives every variable the value of its last setting and changes no other.
pub parse_flags_accepts :
    (host : Host) (v result : Variables) (args : List Bytes)
    → parse_flags host none v args ≡ ok result
    → (settings : List Setting) × (rest : List Bytes) × (args ≡ spell settings ++ rest)
      × All (IsSetting host) settings
      × Stops rest
      × ((g : Flag) → value_of g result ≡ or_else (chosen host g settings) (value_of g v))
unfolding Accepted
parse_flags_accepts host v result args e =
    let (settings, rest, p, h, stops) = accepted host none v result args e in
    let (same, q, values, _) = parse_flags-spell host settings rest v h stops in
    let r : same ≡ result =
      ok-injective same result (sym q ∙ ap (parse_flags host none v) (sym p) ∙ e) in
    (settings, rest, p, h, stops, λ g. ap (value_of g) (sym r) ∙ values g)
