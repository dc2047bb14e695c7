-- ===== src/Core.antt =====
-- src/core: the row types, the state machine of a run and the checkpoints.
pub mod Types
pub mod StateMachine
pub mod Checkpoints
