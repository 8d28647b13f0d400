-- ===== src/AttemptStart.antt =====
-- attempt_start/: the command by which a workflow service claims its pending attempt.
pub mod Rows
pub mod Verdict
pub mod Service
pub mod Replayed
pub mod Isolation
pub mod Commands
pub mod Checks
pub mod Conditions
pub mod Histories
pub mod Eligible
pub mod Claimed
