-- ===== src/Model.antt =====
-- rust/crates/specgate-ctsc/src/validation/model.rs and trace_model.rs: the documents under
-- validation and comparison.
mod AnyValues
mod CanonicalValues
mod Registry
mod Trace
pub mod Ordering
unfoldable pub use AnyValues.*
unfoldable pub use CanonicalValues.*
pub use Registry.*
pub use Trace.*
