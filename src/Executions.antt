-- ===== src/Executions.antt =====
-- packages/persistence/src/repositories/execution_repository.ts: scoped executions, their rounds,
-- tokens and participants. A method that throws inside a transaction leaves the database as it was.
pub mod Operations
pub mod Counting
pub mod Rounds
pub mod Limits
pub mod Eligible
pub mod Creation
pub mod Evidence
pub mod Steps
