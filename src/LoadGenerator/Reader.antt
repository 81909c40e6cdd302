-- ===== src/LoadGenerator/Reader.antt =====
-- The readers of docs/demo/load-generator/main.go: what a call of `Read` does, what a reader promises,
-- and `io.Copy`, which reads up to the end.
use access_log_exporter.Prelude.{
  arith, ℕ, zero, suc, ◌+◌, ◌≤◌, ◌<◌, ◌≡◌, refl, Bool, true, false, ◌++◌, Option, none, some, Bytes,
  length, length-append, Bool-cases, inl, inr,
}

-- A call of `Read`: what it writes to the beginning of the buffer, whether the error is `io.EOF`, and
-- the reader after it.
pub record Chunk (S : Type 0) : Type 0 where
  pub bytes : Bytes
  pub eof : Bool
  pub after : S

-- `Read` by the length of the buffer
abbrev pub Reads : Type 0 → Type 0
Reads S = S → ℕ → Chunk S

-- What a call promises, with the bytes that are left and the number of calls that bring nothing: no
-- more bytes than fit, none lost, the end only when none are left, and progress if the buffer is not
-- empty.
module _ {S : Type 0} (Inv : S → Type 0) (left stalls : S → ℕ) where
  pub record Promised (s : S) (len : ℕ) (chunk : Chunk S) : Type 0 where
    pub keeps : Inv chunk.after
    pub fits : length chunk.bytes ≤ len
    pub conserves : length chunk.bytes + left chunk.after ≡ left s
    pub ends : chunk.eof ≡ true → left chunk.after ≡ 0
    pub progress :
        0 < len → chunk.eof ≡ false → left chunk.after + stalls chunk.after < left s + stalls s

  abbrev pub Delivers : Reads S → Type 0
  Delivers read = (s : S) (len : ℕ) → Inv s → Promised s len (read s len)

-- `io.Copy`: all bytes up to the end; the length of the buffer is given for each call, and `none` is a
-- reader that does not come to its end
unfoldable pub copy : {S : Type 0} → Reads S → (ℕ → ℕ) → ℕ → S → Option Bytes
copy read len zero s = none
copy read len (suc fuel) s =
    let chunk = read s (len fuel) in
    elim chunk.eof [
      | true ↦ some chunk.bytes
      | false ↦ elim (copy read len fuel chunk.after) [
        | none ↦ none
        | some rest ↦ some (chunk.bytes ++ rest)
      ]
    ]

module _ {S : Type 0} (read : Reads S) (Inv : S → Type 0) (left stalls : S → ℕ)
    (law : Delivers Inv left stalls read) where
  -- with buffers that are not empty, the copy comes to the end and has all the bytes
  pub copy-all :
      (len : ℕ → ℕ)
      → ((i : ℕ) → 0 < len i)
      → (fuel : ℕ) (s : S) → Inv s
      → left s + stalls s < fuel
      → (bytes : Bytes) × (copy read len fuel s ≡ some bytes) × (length bytes ≡ left s)
  unfolding copy
  copy-all len positive zero s inv enough = absurd (omega arith)
  copy-all len positive (suc fuel) s inv enough =
      let chunk = read s (len fuel) in
      let promise = law s (len fuel) inv in
      elim (Bool-cases chunk.eof) [
        | inl e ↦ (chunk.bytes, rw (e, copy) refl, omega (arith, promise.conserves, promise.ends e))
        | inr e ↦
            let (bytes, p, q) =
              copy-all len positive fuel chunk.after promise.keeps
                (omega (arith, promise.progress (positive fuel) e)) in
            (
              chunk.bytes ++ bytes,
              rw (e, copy, p) refl,
              omega (arith, promise.conserves, length-append chunk.bytes bytes, q),
            )
      ]
