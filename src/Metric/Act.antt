-- ===== src/Metric/Act.antt =====
-- What the handling of a line works on: the slice of label values that was taken from the pool, and
-- the calls on the Prometheus vector made so far. An error and a panic keep what was done before.
use access_log_exporter.Prelude.{
  ℕ, ◌≡◌, List, [], ◌∷◌, ◌++◌, Bytes, Fault, Result, length, ltb, if◌then◌else◌, index_out_of_range,
}
use access_log_exporter.Prelude
use access_log_exporter.Metric.Types.{Error, Call}

pub record Frame : Type 0 where
  pub labels : List Bytes
  pub calls : List Call

pub data Outcome (A : Type 0) : Type 0 where
  ok : A → Frame → Outcome A
  err : Error → Frame → Outcome A
  panic : Fault → Frame → Outcome A

abbrev pub Act : Type 0 → Type 0
Act A = Frame → Outcome A

infixl 5 ◌>>=◌ ◌>>◌
abbrev pub ◌>>=◌ : {A B : Type 0} → Act A → (A → Act B) → Act B
◌>>=◌ m f s = elim (m s) [ ok a t ↦ f a t | err e t ↦ err e t | panic p t ↦ panic p t ]

abbrev pub ◌>>◌ : {B : Type 0} → Act (Unit {0}) → Act B → Act B
m >> k = m >>= λ _. k

abbrev pub return : {A : Type 0} → A → Act A
return a s = ok a s

abbrev pub fail : {A : Type 0} → Error → Act A
fail e s = err e s

abbrev pub lift : {A : Type 0} → Result Error A → Act A
lift (Result.ok a) s = ok a s
lift (Result.err e) s = err e s
lift (Result.panic p) s = panic p s

-- `labels[i] = v`
abbrev pub set_label : ℕ → Bytes → Act (Unit {0})
set_label i v s =
    if ltb i (length s.labels)
    then ok tt (record s { labels = Prelude.set s.labels i v })
    else panic index_out_of_range s

abbrev pub call : (List Bytes → Call) → Act (Unit {0})
call make s = ok tt (record s { calls = s.calls ++ make s.labels ∷ [] })

-- Neither a panic nor a loop that did not end.
abbrev pub Returns : {A : Type 0} → Outcome A → Type 0
Returns (ok a s) = Unit
Returns (err e s) = Unit
Returns (panic p s) = ⊥

module _ {B : Type 0} (act : Act (Unit {0})) (k : Act B) (s t : Frame) where
  pub then_ok : act s ≡ ok tt t → (act >> k) s ≡ k t
  then_ok h = rw (h, ◌>>◌, ◌>>=◌)

  pub then_err : {e : Error} → act s ≡ err e t → (act >> k) s ≡ err e t
  then_err h = rw (h, ◌>>◌, ◌>>=◌)
