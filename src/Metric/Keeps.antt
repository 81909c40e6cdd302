-- ===== src/Metric/Keeps.antt =====
-- Reasoning about the handling of a line: an invariant of the frame that an action keeps on every
-- outcome, together with the absence of panics.
use access_log_exporter.Prelude.{
  ℕ, ◌<◌, ◌≡◌, ◌≢◌, refl, Bool, true, false, List, Option, none, some, Bytes, length, Result, arith,
  if◌then◌else◌,
}
use access_log_exporter.Prelude
use access_log_exporter.Metric.Types.{Error}
use access_log_exporter.Metric.Act.{Frame, Outcome, Act, ok, err, panic, lift, ◌>>=◌}

abbrev pub Ensures : {A : Type 0} → (Frame → Type 0) → Outcome A → Type 0
Ensures P (ok a s) = P s
Ensures P (err e s) = P s
Ensures P (panic p s) = ⊥

abbrev pub Keeps : {A : Type 0} → (Frame → Type 0) → Act A → Type 0
Keeps P act = (s : Frame) → P s → Ensures P (act s)

module _ (P : Frame → Type 0) where
  Ensures-bind :
      {A B : Type 0} (o : Outcome A) (f : A → Act B)
      → ((a : A) → Keeps P (f a))
      → Ensures P o
      → Ensures P (◌>>=◌ (λ _. o) f (record { labels = Prelude.[]; calls = Prelude.[] }))
  Ensures-bind (ok a s) f k h = k a s h
  Ensures-bind (err e s) f k h = h
  Ensures-bind (panic p s) f k h = h

  pub Keeps-bind :
      {A B : Type 0} (act : Act A) (f : A → Act B)
      → Keeps P act
      → ((a : A) → Keeps P (f a))
      → Keeps P (act >>= f)
  Keeps-bind act f h k s p = Ensures-bind (act s) f k (h s p)

  pub Keeps-lift_bind :
      {A B : Type 0} (r : Result Error A) (f : A → Act B)
      → Prelude.Returns r
      → ((a : A) → r ≡ Result.ok a → Keeps P (f a))
      → Keeps P (lift r >>= f)
  Keeps-lift_bind (Result.ok a) f h k s p = k a refl s p
  Keeps-lift_bind (Result.err e) f h k s p = p
  Keeps-lift_bind (Result.panic e) f h k s p = absurd h

  pub Keeps-if :
      {A : Type 0} (b : Bool) (x y : Act A)
      → (b ≡ true → Keeps P x)
      → (b ≡ false → Keeps P y)
      → Keeps P (if b then x else y)
  Keeps-if true x y h k = h refl
  Keeps-if false x y h k = k refl

  pub Keeps-option :
      {A B : Type 0} (o : Option A) (x : Act B) (f : A → Act B)
      → Keeps P x
      → ((a : A) → Keeps P (f a))
      → Keeps P (elim o [ none ↦ x | some a ↦ f a ])
  Keeps-option none x f h k = h
  Keeps-option (some a) x f h k = k a

  pub Keeps-elim :
      {A : Type 0} (b : Bool) (x y : Act A)
      → (b ≡ true → Keeps P x)
      → (b ≡ false → Keeps P y)
      → Keeps P (elim b [ true ↦ x | false ↦ y ])
  Keeps-elim true x y h k = h refl
  Keeps-elim false x y h k = k refl

  pub Keeps-some :
      {A B : Type 0} (o : Option A) (x : Act B) (f : A → Act B)
      → o ≢ none
      → ((a : A) → Keeps P (f a))
      → Keeps P (elim o [ none ↦ x | some a ↦ f a ])
  Keeps-some none x f h k = absurd (h refl)
  Keeps-some (some a) x f h k = k a
