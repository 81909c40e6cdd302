-- ===== src/Syslog/Framed.antt =====
-- The loops of Start of internal/syslog/syslog.go over a packet, against a description of the
-- packet.
use mathlib.Core.Option.{some-injective}
use access_log_exporter.Prelude.{
  ℕ, zero, suc, ◌+◌, ◌<◌, ◌≤◌, ◌≡◌, refl, sym, ap, ◌∙◌, ◌⊎◌, inl, inr, Bool, true, false, [], ◌∷◌,
  ◌++◌, Option, none, some, Bytes, length, take, drop, ltb, ◌==◌, arith, if◌then◌else◌, ok,
  Bool-cases, get_elem?, get_elem?-some, index, ==_iff, ne→==,
}
use access_log_exporter.Strings.Search.{cut}
use access_log_exporter.Syslog.Packet.{before_kept, strip_control, behind_colons}
use access_log_exporter.Syslog.Frame.{trim_control, third_colon}

before_kept-snoc :
    (c : Bool) (x : ℕ) (xs : Bytes) (b : ℕ)
    → before_kept x (if c then strip_control xs else xs ++ b ∷ [])
      ≡ (if c then before_kept x (strip_control xs) else x ∷ xs ++ b ∷ [])
unfolding before_kept
before_kept-snoc true x xs b = refl
before_kept-snoc false x [] b = refl
before_kept-snoc false x (y ∷ ys) b = refl

strip-snoc :
    (xs : Bytes) (b : ℕ)
    → strip_control (xs ++ b ∷ []) ≡ (if ltb b 32 then strip_control xs else xs ++ b ∷ [])
unfolding strip_control before_kept
strip-snoc [] b = refl
strip-snoc (x ∷ xs) b = ap (before_kept x) (strip-snoc xs b) ∙ before_kept-snoc (ltb b 32) x xs b

take-suc :
    (msg : Bytes) (n : ℕ) (b : ℕ)
    → get_elem? msg n ≡ some b
    → take (suc n) msg ≡ take n msg ++ b ∷ []
take-suc [] n b h = cc
take-suc (x ∷ msg) zero b h = ap (λ c. c ∷ []) (some-injective x b h)
take-suc (x ∷ msg) (suc n) b h = ap (λ l. x ∷ l) (take-suc msg n b h)

strip-take :
    (msg : Bytes) (n : ℕ) (b : ℕ)
    → get_elem? msg n ≡ some b
    → strip_control (take (suc n) msg)
      ≡ (if ltb b 32 then strip_control (take n msg) else take (suc n) msg)
strip-take msg n b e = rw (take-suc msg n b e) (strip-snoc (take n msg) b)

trim_control-suc :
    (msg : Bytes) (n : ℕ) (b : ℕ)
    → get_elem? msg n ≡ some b
    → trim_control msg (suc n) ≡ elim (ltb b 32) [ true ↦ trim_control msg n | false ↦ ok (suc n) ]
unfolding trim_control
trim_control-suc msg n b e = rw (e, index) refl

-- The loop over the control bytes at the end.
pub trim_control-strip :
    (msg : Bytes) (n : ℕ)
    → n ≤ length msg
    → (k : ℕ) × (trim_control msg n ≡ ok k) × (k ≤ n) × (take k msg ≡ strip_control (take n msg))
trim_control-strip msg zero h =
    (0, unfold trim_control in refl, omega arith, unfold strip_control in refl)
trim_control-strip msg (suc n) h =
    let (b, e) = get_elem?-some msg n h in
    let (k, trimmed, small, same) = trim_control-strip msg n (omega arith) in
    elim (Bool-cases (ltb b 32)) [
      | inl control ↦ (
        k,
        trim_control-suc msg n b e ∙ rw control trimmed,
        omega arith,
        same ∙ sym (rw control at (strip-take msg n b e)),
      )
      | inr printed ↦ (
        suc n,
        trim_control-suc msg n b e ∙ rw printed refl,
        omega arith,
        sym (rw printed at (strip-take msg n b e)),
      )
    ]

behind_cut :
    (b k : ℕ) (o : Option (Bytes × Bytes))
    → elim (elim o as (λ _. Option (Bytes × Bytes)) [
      | none ↦ none
      | some (before, after) ↦ some (b ∷ before, after)
    ])
        as (λ _. Option Bytes) [ none ↦ none | some (before, after) ↦ behind_colons k after ]
      ≡ elim o [ none ↦ none | some (before, after) ↦ behind_colons k after ]
behind_cut b k none = refl
behind_cut b k (some (before, after)) = refl

module _ (b : ℕ) (bs : Bytes) where
  behind_colons-past :
      (k : ℕ) → (b == b':') ≡ false → behind_colons (suc k) (b ∷ bs) ≡ behind_colons (suc k) bs
  unfolding behind_colons cut
  behind_colons-past k other = rw (other, behind_colons, cut) (behind_cut b k (cut bs b':'))

  behind_colons-colon :
      (k : ℕ) → (b == b':') ≡ true → behind_colons (suc k) (b ∷ bs) ≡ behind_colons k bs
  unfolding behind_colons cut
  behind_colons-colon k colon = rw (colon, behind_colons, cut) refl

  third_colon-past :
      (i c : ℕ) → (b == b':') ≡ false → third_colon i c (b ∷ bs) ≡ third_colon (i + 1) c bs
  unfolding third_colon
  third_colon-past i c other = rw (other, third_colon) refl

  third_colon-last :
      (i c : ℕ) → c + 1 ≡ 3 → (b == b':') ≡ true → third_colon i c (b ∷ bs) ≡ some (i + 1)
  unfolding third_colon
  third_colon-last i c third colon = rw (colon, third_colon, (==_iff (c + 1) 3).1 third) refl

  third_colon-count :
      (i c : ℕ)
      → c < 2
      → (b == b':') ≡ true
      → third_colon i c (b ∷ bs) ≡ third_colon (i + 1) (c + 1) bs
  unfolding third_colon
  third_colon-count i c few colon = rw (colon, third_colon, ne→== (c + 1) 3 (λ e. omega arith)) refl

-- the scan from `i` on finds nothing, or a place where the rest stands
abbrev pub Scans : ℕ → Bytes → Option ℕ → Option Bytes → Type 0
Scans i bs found rest =
    ((found ≡ none) × (rest ≡ none))
    ⊎ ((d : ℕ) × (found ≡ some (i + d)) × (d ≤ length bs) × (rest ≡ some (drop d bs)))

Scans-past :
    (i b : ℕ) (bs : Bytes) (found : Option ℕ) (rest : Option Bytes)
    → Scans (i + 1) bs found rest
    → Scans i (b ∷ bs) found rest
unfolding Scans
Scans-past i b bs found rest (inl none_found) = inl none_found
Scans-past i b bs found rest (inr (d, at, small, behind)) =
    inr (suc d, at ∙ ap some (omega arith), omega arith, behind)

third_colon-counted :
    (i c k b : ℕ) (bs : Bytes)
    → ((i c k : ℕ) → c + suc k ≡ 3 → Scans i bs (third_colon i c bs) (behind_colons (suc k) bs))
    → c + suc k ≡ 3
    → (b == b':') ≡ true
    → Scans i (b ∷ bs) (third_colon i c (b ∷ bs)) (behind_colons (suc k) (b ∷ bs))
third_colon-counted i c zero b bs scan h colon =
    rw (third_colon-last b bs i c h colon, behind_colons-colon b bs zero colon)
      (unfold Scans behind_colons in inr (1, refl, omega arith, refl))
third_colon-counted i c (suc k) b bs scan h colon =
    rw (third_colon-count b bs i c (omega arith) colon, behind_colons-colon b bs (suc k) colon)
      (Scans-past i b bs _ _ (scan (i + 1) (c + 1) k (omega arith)))

pub third_colon-behind :
    (i c k : ℕ) (bs : Bytes)
    → c + suc k ≡ 3
    → Scans i bs (third_colon i c bs) (behind_colons (suc k) bs)
third_colon-behind i c k [] h = unfold Scans third_colon behind_colons cut in inl (refl, refl)
third_colon-behind i c k (b ∷ bs) h = elim (Bool-cases (b == b':')) [
  | inr other ↦
      rw (third_colon-past b bs i c other, behind_colons-past b bs k other)
        (Scans-past i b bs _ _ (third_colon-behind (i + 1) c k bs h))
  | inl colon ↦ third_colon-counted i c k b bs (λ i c k. third_colon-behind i c k bs) h colon
]
