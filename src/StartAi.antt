-- ===== src/StartAi.antt =====
-- start_ai/: the command that opens a logical operation with its first attempt and credential.
pub mod Hashing
pub mod Guard
pub mod Rows
pub mod Service
pub mod Replayed
pub mod Isolation
pub mod Commands
