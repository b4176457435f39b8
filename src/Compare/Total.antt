-- ===== src/Compare/Total.antt =====
-- The comparison returns.
pub mod Children
pub mod Document
pub mod Loaded
