-- ===== src/Capture.antt =====
-- Native evidence and its encoding: rust/crates/specgate-ctsc/src/capture.rs and its children.
pub mod Evidence
pub mod Built
pub mod Wire
pub mod Encoding
pub mod Scenario
pub mod Run
