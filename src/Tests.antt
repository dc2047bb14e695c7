-- ===== src/Tests.antt =====
-- The theorems at concrete rows.
mod Data
mod Transitions
mod Tables
mod Creation
mod Workers
mod Harness
mod Governed
mod Fence
mod Children
mod Checkpoints
