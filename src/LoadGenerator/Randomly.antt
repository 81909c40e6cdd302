-- ===== src/LoadGenerator/Randomly.antt =====
-- What StreamingRandomReader and ThrottledReader of docs/demo/load-generator/main.go promise.
use access_log_exporter.Prelude.{
  arith, ℕ, zero, suc, ◌+◌, ◌-◌, ◌≤◌, ◌<◌, ◌≡◌, refl, inl, inr, ◌⊎◌, true, false, List, [], ◌∷◌,
  ◌++◌, Bytes, length, take, drop, length-append, length-replicate, Bool-cases, ◌==◌, ==_iff,
}
use access_log_exporter.LoadGenerator.Reader.{Reads, Delivers}
use access_log_exporter.LoadGenerator.Random.{
  min, RandomReader, new_random_reader, fill_from, generate_buffer, refilled, copied, advanced,
  read_loop, read_random, read_throttled,
}

pub length-drop {ℓ} : {A : Type ℓ} (n : ℕ) (xs : List A) → length (drop n xs) ≡ length xs - n
length-drop zero xs = omega arith
length-drop (suc n) [] = omega arith
length-drop (suc n) (x ∷ xs) = omega (arith, length-drop n xs)

pub length-take {ℓ} : {A : Type ℓ} (n : ℕ) (xs : List A) → n ≤ length xs → length (take n xs) ≡ n
length-take zero xs h = refl
length-take (suc n) [] h = absurd (omega arith)
length-take (suc n) (x ∷ xs) h = omega (arith, length-take n xs (omega arith))

length-fill_from :
    (numbers : ℕ → ℕ) (chars : Bytes) (i : ℕ) (buffer : Bytes)
    → length (fill_from numbers chars i buffer) ≡ length buffer
unfolding fill_from
length-fill_from numbers chars i [] = refl
length-fill_from numbers chars i (b ∷ buffer) =
    omega (arith, length-fill_from numbers chars (i + 1) buffer)

-- there is a buffer, and the position is in it or at its end
pub record IsBuffered (r : RandomReader) : Type 0 where
  pub sized : 0 < length r.buffer
  pub placed : r.buf_pos ≤ length r.buffer

length-copied :
    (wanted : ℕ) (r : RandomReader)
    → length (copied wanted r) ≡ min (length r.buffer - r.buf_pos) wanted
unfolding copied
length-copied wanted r =
    length-take (min (length r.buffer - r.buf_pos) wanted) (drop r.buf_pos r.buffer)
      (ground (arith, length-drop r.buf_pos r.buffer))

-- the loop brings what is wanted and takes it off what remains
pub record Loops (wanted : ℕ) (r : RandomReader) (done : Bytes × RandomReader) : Type 0 where
  pub brings : length done.0 ≡ wanted
  pub takes : done.1.remaining + wanted ≡ r.remaining
  pub buffered : IsBuffered done.1

piece_bounds :
    (wanted : ℕ) (full : RandomReader)
    → full.buf_pos < length full.buffer
    → 0 < wanted
    → (0 < length (copied wanted full)) × (length (copied wanted full) ≤ wanted)
piece_bounds wanted full room h =
    (ground (arith, length-copied wanted full), ground (arith, length-copied wanted full))

advanced-IsBuffered :
    (wanted : ℕ) (full : RandomReader)
    → full.buf_pos < length full.buffer
    → IsBuffered (advanced (length (copied wanted full)) full)
unfolding advanced
advanced-IsBuffered wanted full room = record {
  sized = omega arith;
  placed = ground (arith, length-copied wanted full);
}

moved :
    (wanted : ℕ) (r other : RandomReader) (done : Bytes × RandomReader)
    → r.remaining ≡ other.remaining
    → Loops wanted r done
    → Loops wanted other done
moved wanted r other done same l = record {
  brings = l.brings;
  takes = omega (arith, l.takes, same);
  buffered = l.buffered;
}

-- a round that copies from a buffer that is not used up
round-Loops :
    (wanted : ℕ) (full : RandomReader) (done : Bytes × RandomReader)
    → full.buf_pos < length full.buffer
    → Loops
        (wanted - length (copied wanted full))
        (advanced (length (copied wanted full)) full)
        done
    → wanted ≤ full.remaining
    → Loops wanted full (copied wanted full ++ done.0, done.1)
unfolding advanced
round-Loops wanted full done room rest h = record {
  brings =
      ground
        (arith, rest.brings, length-append (copied wanted full) done.0, length-copied wanted full);
  takes = ground (arith, rest.takes, length-copied wanted full);
  buffered = rest.buffered;
}

module _ (random : ℕ → ℕ → ℕ) where
  refilled-lem :
      (r : RandomReader)
      → IsBuffered r
      → (refilled random r).buf_pos < length (refilled random r).buffer
  unfolding refilled generate_buffer
  refilled-lem r b =
      ground (arith, b.sized, b.placed, length-fill_from (random r.fills) r.charset 0 r.buffer)

  refilled-remaining : (r : RandomReader) → (refilled random r).remaining ≡ r.remaining
  unfolding refilled generate_buffer
  refilled-remaining r = ground arith

  read_loop-Loops :
      (fuel wanted : ℕ) (r : RandomReader)
      → wanted ≤ fuel
      → wanted ≤ r.remaining
      → IsBuffered r
      → Loops wanted r (read_loop random fuel wanted r)
  unfolding read_loop
  read_loop-Loops zero wanted r f h b = record {
    brings = omega arith;
    takes = omega arith;
    buffered = b;
  }
  read_loop-Loops (suc fuel) wanted r f h b = elim (Bool-cases (wanted == 0)) [
    | inl e ↦
        rw (e, read_loop) (record { brings = ground arith; takes = ground arith; buffered = b })
    | inr e ↦
        let full = refilled random r in
        let piece = length (copied wanted full) in
        let room = refilled-lem r b in
        let same = refilled-remaining r in
        let (some, fewer) = piece_bounds wanted full room (ground arith) in
        let rest =
          read_loop-Loops fuel (wanted - piece) (advanced piece full) (omega (arith, some))
            (unfold advanced in omega (arith, same, h)) (advanced-IsBuffered wanted full room) in
        rw (e, read_loop)
          (moved wanted full r _ same
            (round-Loops wanted full _ room rest (omega (arith, same, h))))
  ]

  read_random-reads :
      (r : RandomReader) (len : ℕ)
      → IsBuffered r
      → ((r.remaining ≡ 0)
          × (read_random random r len ≡ record { bytes = []; eof = true; after = r }))
        ⊎ ((done : Bytes × RandomReader) × (0 < r.remaining)
            × Loops (min len r.remaining) r done
            × (read_random random r len ≡ record { bytes = done.0; eof = false; after = done.1 }))
  unfolding read_random
  read_random-reads r len b = elim (Bool-cases (r.remaining == 0)) [
    | inl e ↦ inl ((==_iff r.remaining 0).0 e, rw (e, read_random) refl)
    | inr e ↦ inr (
      read_loop random (min len r.remaining) (min len r.remaining) r,
      ground arith,
      read_loop-Loops (min len r.remaining) (min len r.remaining) r (omega arith) (ground arith) b,
      rw (e, read_random) refl,
    )
  ]

  abbrev pub remaining : RandomReader → ℕ
  remaining r = r.remaining

  abbrev pub no_stalls : RandomReader → ℕ
  no_stalls r = 0

  pub read_random-Delivers : Delivers IsBuffered remaining no_stalls (read_random random)
  read_random-Delivers r len b = elim (read_random-reads r len b) [
    | inl (z, e) ↦ rw e (record {
      keeps = b;
      fits = omega arith;
      conserves = omega arith;
      ends = λ f. z;
      progress = λ h f. cc;
    })
    | inr (done, p, l, e) ↦ rw e (record {
      keeps = l.buffered;
      fits = ground (arith, l.brings);
      conserves = omega (arith, l.brings, l.takes);
      ends = λ f. cc;
      progress = λ h f. ground (arith, l.takes, p);
    })
  ]

pub new_random_reader-IsBuffered : (size : ℕ) → IsBuffered (new_random_reader size)
unfolding new_random_reader
new_random_reader-IsBuffered size = record {
  sized = rw length-replicate (omega arith);
  placed = rw length-replicate (omega arith);
}

-- a throttled reader promises what the reader in it does
pub read_throttled-Delivers :
    {S : Type 0} (read : Reads S) (Inv : S → Type 0) (left stalls : S → ℕ) (max : ℕ)
    → 0 < max
    → Delivers Inv left stalls read
    → Delivers Inv left stalls (read_throttled read max)
unfolding read_throttled
read_throttled-Delivers read Inv left stalls max h d s len inv =
    let promise = d s (min len max) inv in
    record {
      keeps = promise.keeps;
      fits = ground (arith, promise.fits);
      conserves = promise.conserves;
      ends = promise.ends;
      progress = λ p e. promise.progress (ground arith) e;
    }
