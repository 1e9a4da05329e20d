-- ===== src/Stellar.antt =====
-- packages/stellar/src/index.ts: settlement on Stellar. What Horizon and the Stellar SDK answer is a
-- parameter of each operation; the signing itself and the encoding of transactions are the SDK's.
pub mod Facts
pub mod Payments
pub mod Confirm
pub mod Submit
pub mod Strategies
pub mod Checks
