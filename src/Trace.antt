-- ===== src/Trace.antt =====
-- rust/crates/specgate-ctsc/src/validation/trace.rs and its children fields.rs, fault.rs and
-- ancestry.rs: the semantic validation of a parsed trace.
pub mod Fault
pub mod Fields
pub mod Roles
pub mod Events
pub mod Ancestry
pub mod Semantics
