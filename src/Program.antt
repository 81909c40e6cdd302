-- ===== src/Program.antt =====
-- cmd/access-log-exporter: the program around the components.
pub mod Start
pub mod Run
pub mod Server
pub mod Shutdown
pub mod Stops
pub mod Served
pub mod Asks
pub mod Ends
pub mod Examples
