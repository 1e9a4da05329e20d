-- ===== src/Sep31.antt =====
-- packages/sep31/src: the adapter for a receiving anchor that speaks SEP-31, and its pre-settle checks.
pub mod Status
pub mod Records
pub mod Adapter
pub mod Checks
