-- ===== src/Metric.antt =====
-- internal/metric: one configured metric, from its construction to the handling of a line.
pub mod Types
pub mod New
pub mod Describe
pub mod Replace
pub mod Act
pub mod Set
pub mod Upstream
pub mod Labels
pub mod Parse
pub mod Keeps
pub mod Writes
pub mod Valid
pub mod Keys
pub mod Built
pub mod Refused
pub mod Safe
pub mod SafeUpstream
pub mod Pool
pub mod SafeParse
pub mod History
pub mod Values
pub mod Replacing
pub mod Excluded
pub mod Included
pub mod LabelValues
pub mod Lines
pub mod Skipped
pub mod Recorded
pub mod PerUpstream
pub mod UpstreamLines
pub mod Examples
pub mod LineExamples
pub mod UpstreamExamples
