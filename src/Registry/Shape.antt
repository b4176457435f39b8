-- ===== src/Registry/Shape.antt =====
-- registry/shape.rs: `validate_shape` and what it calls.
pub mod Types
pub mod Document
