-- ===== src/Examples.antt =====
-- A small trace and registry, and runs and theorems on them.
mod Traces
mod Registry
mod Linkage
mod Loading
mod Capturing
mod Validation
mod Comparison
