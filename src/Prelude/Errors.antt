-- ===== src/Prelude/Errors.antt =====
-- What a Go function with an error result does: it returns, it returns an error, or it panics.
use Prim.Native.Nat.{ℕ}
use mathlib.Core.Path.{◌≡◌, refl}
use mathlib.Core.Logic.{◌⊎◌, inl, inr}
use mathlib.Core.List.{List}
use mathlib.Core.Option.{none, some}
use access_log_exporter.Prelude.Lists.{get_elem?}

-- `no_fuel` is no panic of Go: it marks a loop of the model that ran out of its rounds.
pub data Fault : Type 0 where
  index_out_of_range nil_dereference closed_twice library_panic no_fuel : Fault

pub data Result {ℓ} (E : Type 0) (A : Type ℓ) : Type ℓ where
  ok : A → Result E A
  err : E → Result E A
  panic : Fault → Result E A

infixl 5 ◌>>=◌
abbrev pub ◌>>=◌ {ℓ κ} :
    {E : Type 0} {A : Type ℓ} {B : Type κ} → Result E A → (A → Result E B) → Result E B
ok a >>= f = f a
err e >>= f = err e
panic p >>= f = panic p

-- Neither a panic nor a loop that did not end.
abbrev pub Returns {ℓ} : {E : Type 0} {A : Type ℓ} → Result E A → Type 0
Returns (ok a) = Unit
Returns (err e) = Unit
Returns (panic p) = ⊥

-- `xs[i]`
abbrev pub index {ℓ} : {E : Type 0} {A : Type ℓ} → List A → ℕ → Result E A
index xs i = elim (get_elem? xs i) [ some a ↦ ok a | none ↦ panic index_out_of_range ]

-- a chain that came to a value, taken apart
module _ {ℓ κ} {E : Type 0} {A : Type ℓ} {B : Type κ} (next : A → Result E B) {result : B} where
  pub >>=-ok :
      (first : Result E A)
      → ◌≡◌ {A = Result E B} (first >>= next) (ok result)
      → (value : A) × (next value ≡ ok result) × (first ≡ ok value)
  >>=-ok (panic p) e = cc
  >>=-ok (err why) e = cc
  >>=-ok (ok value) e = (value, e, refl)

pub Result-cases {ℓ} :
    {E : Type 0} {A : Type ℓ} (r : Result E A)
    → ((a : A) × (r ≡ ok a)) ⊎ ((e : E) × (r ≡ err e)) ⊎ ((p : Fault) × (r ≡ panic p))
Result-cases (ok a) = inl (a, refl)
Result-cases (err e) = inr (inl (e, refl))
Result-cases (panic p) = inr (inr (p, refl))

pub ok-injective {ℓ} :
    {E : Type 0} {A : Type ℓ} (a b : A) → ◌≡◌ {A = Result E A} (ok a) (ok b) → a ≡ b
ok-injective a b h = cc
