-- ===== src/Idempotency.antt =====
-- command_idempotency/: reservation, replay, conflict and completion of a command.
pub mod Keys
pub mod Snapshots
pub mod Service
pub mod Completion
pub mod Replay
pub mod Completed
pub mod Again
pub mod Apart
pub mod Isolation
pub mod Safety
