-- ===== src/Domain.antt =====
-- packages/domain/src: the rules that the engine applies before it changes the store.
pub mod Validation
pub mod Energy
pub mod Reproduction
pub mod Routing
pub mod Lifecycle
pub mod Birth
pub mod Narrative
