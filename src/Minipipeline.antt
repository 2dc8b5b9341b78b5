-- ===== src/Minipipeline.antt =====
-- pkg/minipipeline: the measurement pipeline of Web Connectivity.
pub mod Set
pub mod Samples
mod Tests
pub mod Marks
pub mod DnsDiff
pub mod HttpDiff
pub mod Archival
pub mod Environment
pub mod Observation
pub mod Utils
pub mod Loops
pub mod Ingest
pub mod Control
pub mod WellFormed
pub mod Analysis
pub mod Final
pub mod Totality
pub mod Partial
pub mod Verdicts
pub mod Linear
pub mod Classic
