-- ===== src/CoreStore.antt =====
-- packages/persistence/src/core_store.ts, and the repositories of pixels and of the ledger.
pub mod Types
pub mod Pixels
pub mod Ledger
pub mod Rewards
pub mod Refill
