-- ===== src/LoadGenerator/Random.antt =====
-- StreamingRandomReader and ThrottledReader of docs/demo/load-generator/main.go. A size is not
-- negative. The random numbers are given by the filling of the buffer and the index in it.
use access_log_exporter.Prelude.{
  ◌≡◌, refl, ℕ, zero, suc, ◌+◌, ◌-◌, ◌%◌, true, false, [], ◌∷◌, ◌++◌, none, some, Bytes, codes,
  length, take, drop, get_elem?, replicate, leb, ltb, ◌==◌, if◌then◌else◌,
}
use access_log_exporter.LoadGenerator.Reader.{Reads}

abbrev pub min : ℕ → ℕ → ℕ
min a b = if ltb b a then b else a

abbrev pub charset : Bytes
charset = codes "abcdefghijklmnopqrstuvwxyzABCDEFGHIJKLMNOPQRSTUVWXYZ0123456789"

-- `StreamingRandomReader`; `fills` counts the calls of `generateBuffer`
pub record RandomReader : Type 0 where
  pub charset : Bytes
  pub buffer : Bytes
  pub remaining : ℕ
  pub block_size : ℕ
  pub buf_pos : ℕ
  pub fills : ℕ

-- `NewStreamingRandomReader`
unfoldable pub new_random_reader : ℕ → RandomReader
new_random_reader size = record {
  charset = charset;
  buffer = replicate 8192 0;
  remaining = size;
  block_size = 8192;
  buf_pos = 8192;
  fills = 0;
}

-- `charset[rand.Intn(len(charset))]`
unfoldable pub char_at : Bytes → ℕ → ℕ
char_at chars number = elim (get_elem? chars (number % length chars)) [ none ↦ 0 | some c ↦ c ]

-- the loop over the buffer, from an index
unfoldable pub fill_from : (ℕ → ℕ) → Bytes → ℕ → Bytes → Bytes
unfolding char_at
fill_from numbers chars i [] = []
fill_from numbers chars i (b ∷ buffer) =
    char_at chars (numbers i) ∷ fill_from numbers chars (i + 1) buffer

-- what is copied in a round, where so many bytes are wanted
unfoldable pub copied : ℕ → RandomReader → Bytes
copied wanted r = take (min (length r.buffer - r.buf_pos) wanted) (drop r.buf_pos r.buffer)

unfoldable pub advanced : ℕ → RandomReader → RandomReader
advanced count r = record r { buf_pos = r.buf_pos + count; remaining = r.remaining - count }

-- `rand.Intn` by the filling and the index
module _ (random : ℕ → ℕ → ℕ) where
  -- `generateBuffer`
  unfoldable pub generate_buffer : RandomReader → RandomReader
  unfolding fill_from
  generate_buffer r = record r {
    buffer = fill_from (random r.fills) r.charset 0 r.buffer;
    fills = suc r.fills;
  }

  -- a refill, if the buffer is used up
  unfoldable pub refilled : RandomReader → RandomReader
  unfolding generate_buffer
  refilled r =
      if leb (length r.buffer) r.buf_pos then record (generate_buffer r) { buf_pos = 0 } else r

  -- the loop of `Read`: a round copies a byte at least, so as much fuel as bytes are wanted is enough
  unfoldable pub read_loop : ℕ → ℕ → RandomReader → Bytes × RandomReader
  read_loop zero wanted r = ([], r)
  read_loop (suc fuel) wanted r = elim (wanted == 0) [
    | true ↦ ([], r)
    | false ↦
        let full = refilled r in
        let piece = copied wanted full in
        let (rest, last) = read_loop fuel (wanted - length piece) (advanced (length piece) full) in
        (piece ++ rest, last)
  ]

  -- `Read` of `StreamingRandomReader`
  unfoldable pub read_random : Reads RandomReader
  unfolding read_loop
  read_random r len = elim (r.remaining == 0) [
    | true ↦ record { bytes = []; eof = true; after = r }
    | false ↦
        let wanted = min len r.remaining in
        let (bytes, last) = read_loop wanted wanted r in
        record { bytes = bytes; eof = false; after = last }
  ]

-- `Read` of `ThrottledReader`, without its delay
unfoldable pub read_throttled : {S : Type 0} → Reads S → ℕ → Reads S
read_throttled read max_bytes_per_read s len = read s (min len max_bytes_per_read)

test_read :
    (read_random
      (λ fill i. fill + i)
      (record (new_random_reader 5) { buffer = 0 ∷ 0 ∷ 0 ∷ []; buf_pos = 3 })
      9).bytes
    ≡ codes "abcbc"
unfolding read_random refilled copied advanced new_random_reader
test_read = refl
