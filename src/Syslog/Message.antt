-- ===== src/Syslog/Message.antt =====
-- Start of internal/syslog/syslog.go up to the send, against the description of a packet.
use mathlib.Core.Option.{some-injective}
use native.Mathlib.Nat.{zero-add}
use access_log_exporter.Prelude.{
  length-append, ℕ, zero, suc, ◌+◌, ◌<◌, ◌≤◌, ◌≡◌, refl, ap, ◌∙◌, inl, inr, [], ◌∷◌, ◌++◌, Option,
  none, some, Bytes, length, take, drop, ltb, ◌==◌, arith, if◌then◌else◌, ok, err, Bool-cases,
  get_elem?, get_elem?-some, index, ◌>>=◌, ltb→lt, ltb→le, le→leb,
}
use access_log_exporter.Syslog.Frame.{few_colons, read_into, skip_space, slice, frame_body, frame}
use access_log_exporter.Syslog.Packet.{
  message, message_of, drop_space, behind_colons, strip_control,
}
use access_log_exporter.Syslog.Framed.{Scans, third_colon-behind, trim_control-strip}

length-take_le : (n : ℕ) (xs : Bytes) → n ≤ length xs → length (take n xs) ≡ n
length-take_le zero xs h = refl
length-take_le (suc n) [] h = omega arith
length-take_le (suc n) (x ∷ xs) h = ap suc (length-take_le n xs (omega arith))

drop-take :
    (d k b : ℕ) (xs : Bytes)
    → d < k
    → get_elem? xs d ≡ some b
    → drop d (take k xs) ≡ b ∷ drop (suc d) (take k xs)
drop-take d k b [] h e = cc
drop-take d zero b (x ∷ xs) h e = elim h [ ]
drop-take zero (suc k) b (x ∷ xs) h e = ap (λ c. c ∷ take k xs) (some-injective x b e)
drop-take (suc d) (suc k) b (x ∷ xs) h e = drop-take d k b xs (omega arith) e

drop-take_all : (k : ℕ) (xs : Bytes) → drop k (take k xs) ≡ []
drop-take_all zero xs = refl
drop-take_all (suc k) [] = refl
drop-take_all (suc k) (x ∷ xs) = drop-take_all k xs

slice-ok :
    (msg : Bytes) (start end : ℕ)
    → start ≤ end
    → end ≤ length msg
    → slice msg start end ≡ ok (drop start (take end msg))
unfolding slice
slice-ok msg start end h small = rw (le→leb start end h, le→leb end (length msg) small) refl

plus_one : (n : ℕ) → n + 1 ≡ suc n
plus_one n = omega arith

spaced :
    (msg : Bytes) (n start b : ℕ)
    → start < n
    → n ≤ length msg
    → get_elem? msg start ≡ some b
    → slice msg (if b == b' ' then start + 1 else start) n
      ≡ ok (if b == b' ' then drop (suc start) (take n msg) else b ∷ drop (suc start) (take n msg))
spaced msg n start b h small e = elim (Bool-cases (b == b' ')) [
  | inl space ↦ rw (space, plus_one start) (slice-ok msg (suc start) n (omega arith) small)
  | inr other ↦ rw (other, ← drop-take start n b msg h e) (slice-ok msg start n (omega arith) small)
]

nothing_left : (msg : Bytes) (n start : ℕ) → start ≡ n → drop start (take n msg) ≡ []
nothing_left msg n start e = rw e (drop-take_all n msg)

skip-slice :
    (msg : Bytes) (n start : ℕ)
    → start ≤ n
    → n ≤ length msg
    → (skip_space msg n start >>= λ start'. slice msg start' n)
      ≡ ok (drop_space (drop start (take n msg)))
unfolding skip_space drop_space
skip-slice msg n start h small = elim (Bool-cases (ltb start n)) [
  | inl inside ↦
      let (b, e) = get_elem?-some msg start (omega (arith, ltb→lt start n inside)) in
      rw
        (
          inside,
          skip_space,
          e,
          index,
          drop-take start n b msg (ltb→lt start n inside) e,
          drop_space,
        )
        (spaced msg n start b (ltb→lt start n inside) small e)
  | inr outside ↦
      rw (outside, skip_space, nothing_left msg n start (omega (arith, ltb→le start n outside)))
        (slice-ok msg start n h small
          ∙ ap ok (nothing_left msg n start (omega (arith, ltb→le start n outside))))
]

scanned :
    (msg : Bytes) (n : ℕ)
    → n ≤ length msg
    → (found : Option ℕ) (rest : Option Bytes) → Scans 0 (take n msg) found rest
    → elim found [
      | none ↦ err few_colons
      | some start ↦ skip_space msg n start >>= λ start'. slice msg start' n
    ]
      ≡ message_of rest
unfolding message_of
scanned msg n h found rest (inl (e, e')) = rw (e, e') refl
scanned msg n h found rest (inr (d, e, small, e')) =
    rw (e, e', zero-add) (skip-slice msg n d (omega (arith, length-take_le n msg h)) h)

frame_body-message :
    (msg : Bytes) (read : ℕ)
    → read ≤ length msg
    → frame_body msg read ≡ message_of (behind_colons 3 (strip_control (take read msg)))
unfolding frame_body
frame_body-message msg read h =
    let (n, trimmed, small, same) = trim_control-strip msg read h in
    rw (trimmed, ← same)
      (scanned msg n (omega arith) _ _ (third_colon-behind 0 0 2 (take n msg) refl))

-- For every buffer and every number of bytes read that the buffer holds, `Start` gets through its
-- work on the packet without an index out of range, and sends, or ignores for the same reason, just
-- what `message` says of the bytes read: what stands behind '<' and the third colon, less one space
-- there and the control bytes at the end.
pub frame-message :
    (msg : Bytes) (read : ℕ) → read ≤ length msg → frame msg read ≡ message (take read msg)
unfolding frame message
frame-message msg zero h = refl
frame-message [] (suc read) h = elim h [ ]
frame-message (b ∷ msg) (suc read) h = rw (frame_body-message (b ∷ msg) (suc read) h) refl

take-append : (xs ys : Bytes) → take (length xs) (xs ++ ys) ≡ xs
take-append [] ys = refl
take-append (x ∷ xs) ys = ap (λ l. x ∷ l) (take-append xs ys)

-- Whatever a buffer held before, a packet that is read into it is framed as the description says of
-- the packet alone, cut to the size of the buffer: nothing of an earlier packet is sent.
pub frame-read_into :
    (packet msg : Bytes)
    → frame (read_into packet msg) (length (take (length msg) packet))
      ≡ message (take (length msg) packet)
unfolding read_into
frame-read_into packet msg =
    let got = take (length msg) packet in
    let old = drop (length got) msg in
    frame-message (got ++ old) (length got) (omega (arith, length-append got old))
    ∙ ap message (take-append got old)
