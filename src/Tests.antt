-- ===== src/Tests.antt =====
-- Concrete inputs, and the properties at them.
mod Fixtures
mod Rules
mod Budgets
mod Queue
mod Effects
mod Models
mod Rewards
mod Transfers
mod ReadLoops
mod Recoveries
mod Narratives
