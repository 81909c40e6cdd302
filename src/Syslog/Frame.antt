-- ===== src/Syslog/Frame.antt =====
-- The part of `Start` of internal/syslog/syslog.go between the read and the send, and `newMessage` of
-- message.go: where the message stands in the buffer. `msg` is the whole buffer, of which `n` bytes
-- were read.
use access_log_exporter.Prelude.{
  ℕ, zero, suc, ◌+◌, true, false, ◌&&◌, [], ◌∷◌, ◌++◌, Option, none, some, Bytes, length, take,
  drop, ltb, leb, ◌==◌, if◌then◌else◌, Result, ok, err, panic, index, index_out_of_range, ◌>>=◌,
}

-- `bufferSize`
abbrev pub buffer_size : ℕ
buffer_size = 4096

-- `con.Read(msg)`: the packet overwrites the front of the buffer, and what does not fit is lost
unfoldable pub read_into : Bytes → Bytes → Bytes
read_into packet msg = take (length msg) packet ++ drop (length (take (length msg) packet)) msg

-- why a packet is ignored
pub data Ignored : Type 0 where
  empty_packet no_priority few_colons : Ignored

-- `for ; (n > 0) && (msg[n-1] < 32); n--`
unfoldable pub trim_control : Bytes → ℕ → Result Ignored ℕ
trim_control msg zero = ok 0
trim_control msg (suc n) = do
  b ← index msg n
  elim (ltb b 32) [ true ↦ trim_control msg n | false ↦ ok (suc n) ]

-- The loop over `msg[:n]`, from the index `i`: the index behind the third colon.
unfoldable pub third_colon : ℕ → ℕ → Bytes → Option ℕ
third_colon i colon_count [] = none
third_colon i colon_count (b ∷ bs) = elim (b == b':') [
  | true ↦ elim (colon_count + 1 == 3) [
    | true ↦ some (i + 1)
    | false ↦ third_colon (i + 1) (colon_count + 1) bs
  ]
  | false ↦ third_colon (i + 1) colon_count bs
]

-- `if messageStart < n && msg[messageStart] == ' ' { messageStart++ }`
unfoldable pub skip_space : Bytes → ℕ → ℕ → Result Ignored ℕ
skip_space msg n start = elim (ltb start n) [
  | true ↦ do b ← index msg start; ok (if b == b' ' then start + 1 else start)
  | false ↦ ok start
]

-- `string(buffer[start:end])`
unfoldable pub slice : Bytes → ℕ → ℕ → Result Ignored Bytes
slice buffer start end =
    if leb start end && leb end (length buffer)
    then ok (drop start (take end buffer))
    else panic index_out_of_range

-- behind the test for '<'
unfoldable pub frame_body : Bytes → ℕ → Result Ignored Bytes
frame_body msg read = do
  n ← trim_control msg read
  elim (third_colon 0 0 (take n msg)) [
    | none ↦ err few_colons
    | some start ↦ do start' ← skip_space msg n start; slice msg start' n
  ]

-- The line of the message, or the reason why there is none; `read` is the number of bytes read.
unfoldable pub frame : Bytes → ℕ → Result Ignored Bytes
unfolding frame_body skip_space
frame msg zero = err empty_packet
frame msg (suc read) = do
  b ← index msg 0
  if b == b'<' then frame_body msg (suc read) else err no_priority
