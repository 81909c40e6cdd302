-- ===== src/Strings.antt =====
-- The functions of Go's package strings that the exporter calls, over the bytes of a string.
pub mod Search
pub mod Prefix
pub mod Split
pub mod Space
pub mod Replace
pub mod Laws
pub mod RoundTrip
