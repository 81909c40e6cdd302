-- ===== src/Syslog/Delivered.antt =====
-- Start of internal/syslog/syslog.go against what it promises: a description that knows no buffer.
use access_log_exporter.Prelude.{
  ℕ, zero, suc, ◌+◌, ◌≡◌, ◌≢◌, refl, subst, ◌==◌, sym, ap, ◌∙◌, inl, inr, Bool, true, false, not,
  ◌&&◌, List, [], ◌∷◌, ◌++◌, Option, none, some, Bytes, length, take, drop, get_elem?, All,
  All-append, Result, ok, err, panic, Fault, arith, if◌then◌else◌, length-append, length-replicate,
  Bool-cases, Option-cases,
}
use mathlib.Core.Option.{some-injective}
use access_log_exporter.Syslog.Frame.{buffer_size, Ignored, read_into, frame, no_priority}
use access_log_exporter.Syslog.Packet.{message, message_of, behind_colons, strip_control}
use access_log_exporter.Syslog.Message.{frame-read_into}
use access_log_exporter.Syslog.Promise.{
  Step, skips, ends, fails, sends, packet_step, failure_step, round_step,
}
use access_log_exporter.Syslog.Server.{
  OpError, Read, got, failed, Select, sent, closed, Round, Message, Server, Turn, continued,
  returned, stopped, remove_at, get, put, send, read_failed, got_packet, turn, release,
}

abbrev IsFull : Bytes → Type 0
IsFull buffer = length buffer ≡ buffer_size

-- every buffer has its size, and each one that was made is in the pool or in a message not yet
-- released
abbrev pub IsSound : Server → Type 0
IsSound s =
    All IsFull s.pool
    × All (λ m. IsFull m.buffer) s.in_flight
    × (length s.pool + length s.in_flight ≡ s.made)

abbrev IsHolding : Bytes → Server → Type 0
IsHolding buffer s =
    IsFull buffer
    × All IsFull s.pool
    × All (λ m. IsFull m.buffer) s.in_flight
    × (length s.pool + length s.in_flight + 1 ≡ s.made)

abbrev pub Does : Step → List Bytes → Turn → Type 0
Does skips lines (continued s) = IsSound s × (s.lines ≡ lines)
Does (sends line) lines (continued s) = IsSound s × (s.lines ≡ lines ++ line ∷ [])
Does ends lines (returned s) = IsSound s × (s.lines ≡ lines)
Does fails lines (stopped s) = IsSound s × (s.lines ≡ lines)
Does _ _ _ = ⊥

module _ {ℓ κ} {A : Type ℓ} (P : A → Type κ) where
  All-get : (xs : List A) (i : ℕ) {a : A} → get_elem? xs i ≡ some a → All P xs → P a
  All-get [] i e h = cc
  All-get (x ∷ xs) zero e (p, _) = subst P (some-injective x _ e) p
  All-get (x ∷ xs) (suc i) e (_, ps) = All-get xs i e ps

  All-remove_at : (i : ℕ) (xs : List A) → All P xs → All P (remove_at i xs)
  unfolding remove_at
  All-remove_at i [] h = tt
  All-remove_at zero (x ∷ xs) (_, ps) = ps
  All-remove_at (suc i) (x ∷ xs) (p, ps) = (p, All-remove_at i xs ps)

length-remove_at {ℓ} :
    {A : Type ℓ} (i : ℕ) (xs : List A) {a : A}
    → get_elem? xs i ≡ some a
    → length (remove_at i xs) + 1 ≡ length xs
unfolding remove_at
length-remove_at i [] e = cc
length-remove_at zero (x ∷ xs) e = omega arith
length-remove_at (suc i) (x ∷ xs) e = omega (arith, length-remove_at i xs e)

length-take-drop :
    (n : ℕ) (xs : Bytes) (msg : Bytes)
    → n ≡ length msg
    → length (take n xs ++ drop (length (take n xs)) msg) ≡ n
length-take-drop zero xs [] e = refl
length-take-drop zero xs (b ∷ msg) e = omega arith
length-take-drop (suc n) [] msg e = sym e
length-take-drop (suc n) (x ∷ xs) [] e = omega arith
length-take-drop (suc n) (x ∷ xs) (b ∷ msg) e = ap suc (length-take-drop n xs msg (omega arith))

read_into-IsFull : (packet msg : Bytes) → IsFull msg → IsFull (read_into packet msg)
unfolding read_into
read_into-IsFull packet msg full = length-take-drop (length msg) packet msg refl ∙ full

message_of-safe : (o : Option Bytes) (f : Fault) → message_of o ≢ panic f
unfolding message_of
message_of-safe none f = λ e. cc
message_of-safe (some rest) f = λ e. cc

message-safe : (packet : Bytes) (f : Fault) → message packet ≢ panic f
unfolding message
message-safe [] f = λ e. cc
message-safe (b ∷ bs) f =
    elim (b == b'<')
      as (λ c.
        (if c then message_of (behind_colons 3 (strip_control (b ∷ bs))) else err no_priority)
        ≢ panic f) [
          | true ↦ message_of-safe (behind_colons 3 (strip_control (b ∷ bs))) f
          | false ↦ λ e. cc
        ]

get-IsHolding : (pick : ℕ) (s : Server) → IsSound s → IsHolding (get pick s).0 (get pick s).1
unfolding get
get-IsHolding pick s (pool, flight, count) = elim (Option-cases (get_elem? s.pool pick)) [
  | inl e ↦ rw (e, get) (length-replicate {A = ℕ} buffer_size 0, pool, flight, omega arith)
  | inr (buffer, e) ↦
      rw (e, get)
        (
          All-get IsFull s.pool pick e pool,
          All-remove_at IsFull pick s.pool pool,
          flight,
          omega (arith, length-remove_at pick s.pool e),
        )
]

put-IsSound : (buffer : Bytes) (s : Server) → IsHolding buffer s → IsSound (put buffer s)
unfolding put
put-IsSound buffer s (full, pool, flight, count) = ((full, pool), flight, omega arith)

send-IsSound : (m : Message) (s : Server) → IsHolding m.buffer s → IsSound (send m s)
unfolding send
send-IsSound m s (full, pool, flight, count) = (
  pool,
  All-append _ s.in_flight (m ∷ []) flight (full, tt),
  omega (arith, length-append s.in_flight (m ∷ [])),
)

pub release-IsSound :
    (i : ℕ) (s : Server) → IsSound s → IsSound (release i s) × ((release i s).lines ≡ s.lines)
unfolding release put
release-IsSound i s (pool, flight, count) = elim (Option-cases (get_elem? s.in_flight i)) [
  | inl e ↦ rw (e, release) ((pool, flight, count), refl)
  | inr (m, e) ↦
      rw (e, release)
        (
          (
            (All-get (λ m. IsFull m.buffer) s.in_flight i e flight, pool),
            All-remove_at (λ m. IsFull m.buffer) i s.in_flight flight,
            omega (arith, length-remove_at i s.in_flight e),
          ),
          refl,
        )
]

read_failed-Does :
    (e : Option OpError) (is_done : Bool) (s : Server)
    → IsSound s
    → Does (failure_step e is_done) s.lines (read_failed e is_done s)
unfolding failure_step read_failed
read_failed-Does e true s h = (h, refl)
read_failed-Does none false s h = (h, refl)
read_failed-Does (some e) false s h = elim (Bool-cases (not e.temporary && not e.timeout)) [
  | inl hard ↦ rw (hard, failure_step, read_failed) (h, refl)
  | inr soft ↦ rw (soft, failure_step, read_failed) (h, refl)
]

framed-Does :
    (framed : Result Ignored Bytes) (buffer : Bytes) (n : ℕ) (select : Select) (s : Server)
    → frame buffer n ≡ framed
    → ((f : Fault) → framed ≢ panic f)
    → IsHolding buffer s
    → Does (packet_step framed select) s.lines (got_packet buffer n select s)
unfolding packet_step got_packet put send
framed-Does (panic f) buffer n select s e safe h = absurd (safe f refl)
framed-Does (err i) buffer n select s e safe h = rw (e, got_packet) (put-IsSound buffer s h, refl)
framed-Does (ok line) buffer n closed s e safe h = rw (e, got_packet) (put-IsSound buffer s h, refl)
framed-Does (ok line) buffer n sent s e safe h =
    rw (e, got_packet) (send-IsSound (record { line = line; buffer = buffer }) s h, refl)

read-Does :
    (r : Read) (is_done : Bool) (select : Select) (s : Server) (buffer : Bytes)
    → IsHolding buffer s
    → Does
        (elim r [
          | failed e ↦ failure_step e is_done
          | got packet ↦ packet_step (message (take buffer_size packet)) select
        ])
        s.lines
        (elim r [
          | failed e ↦ read_failed e is_done (put buffer s)
          | got packet ↦
              got_packet (read_into packet buffer) (length (take (length buffer) packet)) select s
        ])
read-Does (failed e) is_done select s buffer h =
    unfold put in read_failed-Does e is_done (put buffer s) (put-IsSound buffer s h)
read-Does (got packet) is_done select s buffer (full, pool, flight, count) =
    framed-Does (message (take buffer_size packet)) (read_into packet buffer)
      (length (take (length buffer) packet)) select s
      (frame-read_into packet buffer ∙ ap (λ n. message (take n packet)) full)
      (message-safe (take buffer_size packet))
      (read_into-IsFull packet buffer full, pool, flight, count)

get-lines : (pick : ℕ) (s : Server) → (get pick s).1.lines ≡ s.lines
unfolding get
get-lines pick s = elim (Option-cases (get_elem? s.pool pick)) [
  | inl e ↦ rw (e, get) refl
  | inr (buffer, e) ↦ rw (e, get) refl
]

-- From a server whose buffers are all accounted for, each round of `Start` keeps it so, does not
-- panic, and comes to what the packet or the failure of its read says: it sends the packet's message,
-- skips, returns without an error because the server is closed, or returns the error; it sends no
-- other line.
pub turn-Does : (r : Round) (s : Server) → IsSound s → Does (round_step r) s.lines (turn r s)
unfolding round_step turn
turn-Does r s h = rw (get-lines r.pick s) at (
    read-Does r.read r.is_done r.select (get r.pick s).1 (get r.pick s).0
      (get-IsHolding r.pick s h))
