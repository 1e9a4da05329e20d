-- ===== src/Sep6.antt =====
-- packages/sep6/src/index.ts: the adapter for a receiving anchor that speaks SEP-6.
pub mod Info
pub mod Records
pub mod Quote
pub mod Adapter
