-- ===== src/AdapterKit.antt =====
-- packages/adapter-kit/src: reading refunds and quotes of an anchor, and its SEP-10 and SEP-12 clients.
pub mod Refunds
pub mod Http
pub mod Sep10
pub mod Sep12
pub mod Quotes
