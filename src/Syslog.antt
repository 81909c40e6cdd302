-- ===== src/Syslog.antt =====
-- internal/syslog: the server that reads packets and sends their messages to the workers.
pub mod Frame
pub mod Packet
pub mod Framed
pub mod Message
pub mod Server
pub mod Promise
pub mod Delivered
pub mod Run
pub mod Listen
pub mod Closed
pub mod Examples
