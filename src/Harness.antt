-- ===== src/Harness.antt =====
-- src/harness: the supervisor of a run, the limits of a model call, and governed actions.
pub mod Supervisor
pub mod Limits
pub mod Governed
pub mod Admission
