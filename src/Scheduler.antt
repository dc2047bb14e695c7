-- ===== src/Scheduler.antt =====
-- src/scheduler and the settlement of src/harness/worker.ts: who executes a run, and what becomes of
-- it when the execution ends or is lost.
pub mod Claim
pub mod Reaper
pub mod Settle
pub mod Children
