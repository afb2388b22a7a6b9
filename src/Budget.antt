-- ===== src/Budget.antt =====
-- packages/persistence/src/repositories/budget_repository.ts: reserving, settling and refunding the
-- tokens of a model call. Each operation is one transaction: what it throws leaves the database
-- as it was, so the result is the new database or an error. The class's two callbacks are the
-- parameters: `companyRun`, and `ensureEnergy` with its key's prefix.
pub mod Types
pub mod Operations
pub mod OpenSum
pub mod Accounting
pub mod Books
pub mod Limits
pub mod Settlement
pub mod Capacity
