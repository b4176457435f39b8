-- ===== src/Linked.antt =====
-- rust/crates/specgate-ctsc/src/validation/linked.rs: trace values against registry types.
pub mod Primitive
pub mod Resolve
pub mod Canonical
pub mod Arms
pub mod Value
pub mod Operation
