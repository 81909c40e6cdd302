-- ===== src/LoadGenerator.antt =====
-- docs/demo/load-generator: the requests that the demonstration sends, and their bodies.
pub mod Reader
pub mod Random
pub mod Randomly
pub mod Json
pub mod JsonBody
pub mod Form
pub mod FormBody
pub mod Body
pub mod Sent
pub mod Request
pub mod Requested
pub mod Examples
