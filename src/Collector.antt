-- ===== src/Collector.antt =====
-- internal/collector: the metrics of a preset, and the workers that feed them with lines.
pub mod Fields
pub mod Build
pub mod Describe
pub mod Handle
pub mod Every
pub mod Started
pub mod Described
pub mod Collected
pub mod Workers
pub mod Conserved
pub mod Drained
pub mod Examples
