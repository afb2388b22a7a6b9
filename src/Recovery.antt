-- ===== src/Recovery.antt =====
-- `resolveRecoveryOperation` of packages/persistence/src/core_store.ts.
pub mod Types
pub mod Operations
pub mod Resolve
pub mod Books
pub mod Accounted
pub mod Once
pub mod Cleared
pub mod Done
