-- ===== src/Compare/Same.antt =====
-- A document compared with itself.
pub mod Events
pub mod Children
pub mod Scenarios
pub mod Spans
pub mod Document
pub mod Valid
