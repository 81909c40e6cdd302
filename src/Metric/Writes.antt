-- ===== src/Metric/Writes.antt =====
-- A run of writes into a slice, one index after the other.
use native.Mathlib.Nat.{zero-add, suc-add}
use access_log_exporter.Prelude.{
  ℕ, ◌+◌, ◌≡◌, refl, sym, ap, ◌∙◌, List, [], ◌∷◌, ◌++◌, append_assoc, append-nil, length,
  length-append, length-set, set, replicate,
}

module _ {A : Type 0} where
  abbrev pub write_from : ℕ → List A → List A → List A
  write_from i [] xs = xs
  write_from i (v ∷ vs) xs = write_from (i + 1) vs (set xs i v)

  pub length-write_from : (i : ℕ) (vs xs : List A) → length (write_from i vs xs) ≡ length xs
  length-write_from i [] xs = refl
  length-write_from i (v ∷ vs) xs = length-write_from (i + 1) vs (set xs i v) ∙ length-set xs i v

  pub set-append :
      (xs : List A) (x v : A) (ys : List A) → set (xs ++ x ∷ ys) (length xs) v ≡ xs ++ v ∷ ys
  set-append [] x v ys = refl
  set-append (w ∷ xs) x v ys = ap (λ l. w ∷ l) (set-append xs x v ys)

  length-snoc : (xs : List A) (v : A) → length xs + 1 ≡ length (xs ++ v ∷ [])
  length-snoc xs v = sym (length-append xs (v ∷ []))

  snoc-append : (xs : List A) (v : A) (ys : List A) → xs ++ v ∷ ys ≡ (xs ++ v ∷ []) ++ ys
  snoc-append xs v ys = sym (append_assoc xs (v ∷ []) ys)

  write_from-append :
      (xs vs : List A) (x : A) (k : ℕ)
      → write_from (length xs) vs (xs ++ replicate (length vs + k) x) ≡ xs ++ vs ++ replicate k x
  write_from-append xs [] x k = rw (zero-add, append-nil)
  write_from-append xs (v ∷ vs) x k =
      rw (suc-add, set-append, snoc-append xs v _, length-snoc xs v)
        (write_from-append (xs ++ v ∷ []) vs x k ∙ simp append_assoc)

  -- Written from the start into blanks, the values stand before the blanks that are left.
  pub write_from-replicate :
      (vs : List A) (x : A) (k : ℕ)
      → write_from 0 vs (replicate (length vs + k) x) ≡ vs ++ replicate k x
  write_from-replicate vs x k = write_from-append [] vs x k
