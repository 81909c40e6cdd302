-- ===== src/Syslog/Promise.antt =====
-- What Start of internal/syslog/syslog.go promises, without its buffers.
use access_log_exporter.Prelude.{
  Bool, true, false, not, ◌&&◌, List, [], ◌∷◌, Option, none, some, Bytes, take, Result, ok, err,
  panic,
}
use access_log_exporter.Syslog.Frame.{buffer_size, Ignored}
use access_log_exporter.Syslog.Packet.{message}
use access_log_exporter.Syslog.Server.{
  OpError, got, failed, Select, sent, closed, Round, Event, round_ends, released,
}

-- what a round comes to, and what `Start` comes to
pub data Step : Type 0 where
  skips ends fails : Step
  sends : Bytes → Step

unfoldable pub packet_step : Result Ignored Bytes → Select → Step
packet_step (ok line) sent = sends line
packet_step (ok line) closed = ends
packet_step (err _) select = skips
packet_step (panic _) select = skips

unfoldable pub failure_step : Option OpError → Bool → Step
failure_step e true = ends
failure_step none false = skips
failure_step (some e) false = elim (not e.temporary && not e.timeout) [
  | true ↦ fails
  | false ↦ skips
]

-- What the round does, by the packet's bytes and the failure alone.
unfoldable pub round_step : Round → Step
round_step r = elim r.read [
  | failed e ↦ failure_step e r.is_done
  | got packet ↦ packet_step (message (take buffer_size packet)) r.select
]

-- whether `Start` goes on, and the lines that it has sent: the messages of the packets in the order of
-- their arrival, until a round ends it
pub data End : Type 0 where
  running closing failing : End

unfoldable pub deliver : List Event → List Bytes × End
deliver [] = ([], running)
deliver (released i ∷ events) = deliver events
deliver (round_ends r ∷ events) = elim (round_step r) [
  | skips ↦ deliver events
  | sends line ↦ let (lines, end) = deliver events in (line ∷ lines, end)
  | ends ↦ ([], closing)
  | fails ↦ ([], failing)
]
