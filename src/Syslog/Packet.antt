-- ===== src/Syslog/Packet.antt =====
-- What a syslog packet means, independent of the loops of internal/syslog/syslog.go.
use access_log_exporter.Prelude.{
  ℕ, zero, suc, [], ◌∷◌, Option, none, some, Bytes, ltb, ◌==◌, if◌then◌else◌, Result, ok, err,
}
use access_log_exporter.Strings.Search.{cut}
use access_log_exporter.Syslog.Frame.{Ignored, empty_packet, no_priority, few_colons}

unfoldable pub before_kept : ℕ → Bytes → Bytes
before_kept b [] = if ltb b 32 then [] else b ∷ []
before_kept b (x ∷ xs) = b ∷ x ∷ xs

-- a packet without the control bytes at its end
unfoldable pub strip_control : Bytes → Bytes
strip_control [] = []
strip_control (b ∷ bs) = before_kept b (strip_control bs)

-- what stands behind so many colons
unfoldable pub behind_colons : ℕ → Bytes → Option Bytes
behind_colons zero s = some s
behind_colons (suc k) s = elim (cut s b':') [
  | none ↦ none
  | some (before, after) ↦ behind_colons k after
]

unfoldable pub drop_space : Bytes → Bytes
drop_space [] = []
drop_space (b ∷ bs) = if b == b' ' then bs else b ∷ bs

unfoldable pub message_of : Option Bytes → Result Ignored Bytes
message_of none = err few_colons
message_of (some rest) = ok (drop_space rest)

-- The message of a packet: it begins with '<', and the message is what stands behind the third colon
-- and one space, up to the control bytes at the end.
unfoldable pub message : Bytes → Result Ignored Bytes
message [] = err empty_packet
message (b ∷ bs) =
    if b == b'<' then message_of (behind_colons 3 (strip_control (b ∷ bs))) else err no_priority
