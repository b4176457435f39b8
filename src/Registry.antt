-- ===== src/Registry.antt =====
-- The validation of registry documents: rust/crates/specgate-ctsc/src/validation/registry.rs and
-- its children.
pub mod Checks
pub mod Extension
pub mod Shape
pub mod Uses
pub mod Cycles
pub mod Scope
pub mod References
pub mod Files
pub mod Uri
pub mod Selection
pub mod Load
