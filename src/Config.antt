-- ===== src/Config.antt =====
-- internal/config.
pub mod Types
pub mod Sections
pub mod Slices
pub mod Lookup
pub mod Validate
pub mod Laws
pub mod RoundTrip
pub mod Examples
pub mod Url
pub mod Numbers
pub mod Literals
pub mod Flags
pub mod FlagSet
pub mod Load
pub mod Variables
pub mod Command
pub mod Environment
pub mod Integers
pub mod Precedence
pub mod Asked
pub mod Accepted
pub mod FlagExamples
