-- ===== src/Tests.antt =====
-- Runs of the model on concrete inputs: a sample corridor with its anchor, and the theorems applied
-- to it.
pub mod Sample
mod Engine
mod Components
mod Polling
mod Money
mod Anchors
mod Stellar
