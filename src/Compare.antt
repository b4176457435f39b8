-- ===== src/Compare.antt =====
-- rust/crates/specgate-ctsc/src/comparison/engine.rs and report.rs: strict comparison of two
-- traces.
pub mod Report
pub mod Outcome
pub mod Values
pub mod Events
pub mod Children
pub mod Spans
pub mod Documents
pub mod Same
pub mod Total
