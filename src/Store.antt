-- ===== src/Store.antt =====
-- src/store and src/db: the tables and the transactions on them.
pub mod Rows
pub mod Database
pub mod Admissions
pub mod Attempts
pub mod Grants
pub mod Approvals
pub mod Receipts
pub mod ChildLineage
pub mod Outbox
pub mod ModelUsage
pub mod Checkpoints
pub mod Runs
