-- ===== src/Syslog/Examples.antt =====
-- The theorems on the syslog server, at concrete packets.
use access_log_exporter.Prelude.{
  ◌≡◌, refl, true, false, List, [], ◌∷◌, ◌++◌, none, some, Bytes, codes, length, take, ok, arith,
}
use access_log_exporter.Syslog.Frame.{read_into, frame, trim_control, third_colon, slice}
use access_log_exporter.Syslog.Packet.{message}
use access_log_exporter.Syslog.Message.{frame-message, frame-read_into}
use access_log_exporter.Syslog.Promise.{deliver}
use access_log_exporter.Syslog.Server.{
  got, failed, sent, Event, round_ends, released, start, started,
}
use access_log_exporter.Syslog.Run.{Ends, start-Ends}
use access_log_exporter.Syslog.Listen.{Listener, Syslog, new}
use access_log_exporter.Syslog.Closed.{ClosesAt, unix_url, new-ClosesAt}

abbrev packet : Bytes
packet = codes "<34>Oct 11 22:14:15 nginx: a\tb\r\n"

abbrev buffer_of_packet : Bytes
buffer_of_packet = codes "<34>Oct 11 22:14:15 nginx: a\tb\r\nstale: old"

test_frame : frame buffer_of_packet 31 ≡ ok (codes "a\tb")
unfolding frame trim_control third_colon slice
test_frame = refl

frame-message_example : frame buffer_of_packet 31 ≡ message (take 31 buffer_of_packet)
frame-message_example = frame-message buffer_of_packet 31 (omega arith)

frame-read_into_example :
    frame (read_into packet buffer_of_packet) (length (take (length buffer_of_packet) packet))
    ≡ message (take (length buffer_of_packet) packet)
frame-read_into_example = frame-read_into packet buffer_of_packet

-- a packet is sent, its message released, a read fails once, and the server is closed
abbrev events : List Event
events =
    round_ends (record { pick = 0; read = got packet; is_done = false; select = sent })
    ∷ released 0
    ∷ round_ends (record { pick = 0; read = failed none; is_done = false; select = sent })
    ∷ round_ends (record { pick = 0; read = failed none; is_done = true; select = sent })
    ∷ []

start-Ends_example :
    Ends (started.lines ++ (deliver events).0) (deliver events).1 (start events started)
start-Ends_example = start-Ends events started (tt, tt, refl)

abbrev socket_listener : Listener
socket_listener = record { reads = true; is_closed = false }

new-ClosesAt_example :
    (s : Syslog) × (new
        (λ a. some (unix_url [] (codes "/run/s")))
        (λ n a. some socket_listener)
        (codes "unix://" ++ [] ++ codes "/run/s")
      ≡ ok s)
    × ClosesAt ([] ++ codes "/run/s") s
new-ClosesAt_example =
    new-ClosesAt (λ a. some (unix_url [] (codes "/run/s"))) (λ n a. some socket_listener) []
      (codes "/run/s") socket_listener refl refl refl
