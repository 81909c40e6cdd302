-- ===== src/Syslog/Server.antt =====
-- Start of internal/syslog/syslog.go: its rounds, the pool of buffers, the messages it sends and their
-- Release (message.go).
use access_log_exporter.Prelude.{
  ℕ, zero, suc, Bool, true, false, not, ◌&&◌, List, [], ◌∷◌, ◌++◌, Option, none, some, Bytes,
  length, take, replicate, get_elem?, Fault, ok, err, panic,
}
use access_log_exporter.Syslog.Frame.{buffer_size, read_into, frame}

-- `*net.OpError`, by the answers of its two methods
pub record OpError : Type 0 where
  pub temporary : Bool
  pub timeout : Bool

-- what `con.Read` does: it fills the buffer from a packet, or fails; the error is an OpError or not
pub data Read : Type 0 where
  got : Bytes → Read
  failed : Option OpError → Read

-- which case `select` takes for the send
pub data Select : Type 0 where
  sent closed : Select

-- What the surroundings do in a round: the pool hands out the buffer at `pick`, or a new one where
-- there is none; `is_done` tells whether `done` is closed when a failed read is looked at.
pub record Round : Type 0 where
  pub pick : ℕ
  pub read : Read
  pub is_done : Bool
  pub select : Select

-- `Message`
pub record Message : Type 0 where
  pub line : Bytes
  pub buffer : Bytes

-- The pool, the messages sent and not yet released, all lines sent, and the number of buffers made.
pub record Server : Type 0 where
  pub pool : List Bytes
  pub in_flight : List Message
  pub lines : List Bytes
  pub made : ℕ

-- how a round ends: `continue`, `return nil`, `return fmt.Errorf(...)` or a panic
pub data Turn : Type 0 where
  continued : Server → Turn
  returned : Server → Turn
  stopped : Server → Turn
  panicked : Fault → Turn

unfoldable pub remove_at {ℓ} : {A : Type ℓ} → ℕ → List A → List A
remove_at i [] = []
remove_at zero (x ∷ xs) = xs
remove_at (suc i) (x ∷ xs) = x ∷ remove_at i xs

-- `s.bufferPool.Get()`
unfoldable pub get : ℕ → Server → Bytes × Server
unfolding remove_at
get pick s = elim (get_elem? s.pool pick) [
  | none ↦ (replicate buffer_size 0, record s { made = suc s.made })
  | some buffer ↦ (buffer, record s { pool = remove_at pick s.pool })
]

-- `pool.Put(buffer)`
unfoldable pub put : Bytes → Server → Server
put buffer s = record s { pool = buffer ∷ s.pool }

-- `msgCh <- message`
unfoldable pub send : Message → Server → Server
send m s = record s { in_flight = s.in_flight ++ m ∷ []; lines = s.lines ++ m.line ∷ [] }

-- the branch of a failed read
unfoldable pub read_failed : Option OpError → Bool → Server → Turn
read_failed e true s = returned s
read_failed none false s = continued s
read_failed (some e) false s = elim (not e.temporary && not e.timeout) [
  | true ↦ stopped s
  | false ↦ continued s
]

-- The branch of a packet that was read into `buffer`, with `n` bytes.
unfoldable pub got_packet : Bytes → ℕ → Select → Server → Turn
unfolding put send
got_packet buffer n select s = elim (frame buffer n) [
  | panic f ↦ panicked f
  | err _ ↦ continued (put buffer s)
  | ok line ↦ elim select [
    | sent ↦ continued (send (record { line = line; buffer = buffer }) s)
    | closed ↦ returned (put buffer s)
  ]
]

-- one round of the loop
unfoldable pub turn : Round → Server → Turn
unfolding get put read_failed got_packet
turn r s =
    let (buffer, s') = get r.pick s in
    elim r.read [
      | failed e ↦ read_failed e r.is_done (put buffer s')
      | got packet ↦
          got_packet (read_into packet buffer) (length (take (length buffer) packet)) r.select s'
    ]

-- `Release` of the message at that place, by the worker that holds it
unfoldable pub release : ℕ → Server → Server
unfolding remove_at put
release i s = elim (get_elem? s.in_flight i) [
  | none ↦ s
  | some m ↦ put m.buffer (record s { in_flight = remove_at i s.in_flight })
]

-- what happens, in its order
pub data Event : Type 0 where
  round_ends : Round → Event
  released : ℕ → Event

-- `Start`, beside the workers' releases: the server after the events, or where it returned
unfoldable pub start : List Event → Server → Turn
unfolding turn release
start [] s = continued s
start (released i ∷ events) s = start events (release i s)
start (round_ends r ∷ events) s = elim (turn r s) [
  | continued s' ↦ start events s'
  | returned s' ↦ returned s'
  | stopped s' ↦ stopped s'
  | panicked f ↦ panicked f
]

-- `New` makes it with an empty pool.
abbrev pub started : Server
started = record { pool = []; in_flight = []; lines = []; made = 0 }
