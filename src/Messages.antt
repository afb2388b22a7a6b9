-- ===== src/Messages.antt =====
-- packages/persistence/src/repositories/message_repository.ts: the queue of messages. A method is a
-- function from the database to the new one with what it returns; the clock and the generated
-- message id are arguments. Time stamps of updates are left out.
pub mod Types
pub mod Queue
pub mod Claim
pub mod Choice
pub mod Reuse
pub mod Commit
pub mod Waiting
