-- ===== src/Runtime.antt =====
-- packages/runtime/src: how a decision of the model becomes a list of effects, and the messages
-- that the engine sends back.
pub mod Compiler
pub mod Feedback
pub mod Effects
pub mod ReadLoop
