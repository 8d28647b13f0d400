-- ===== src/Tests.antt =====
-- Tests and the theorems at concrete inputs.
mod Toy
mod StartAi
mod AttemptStart
mod Callback
mod Idempotency
mod MachineAuth
mod Intake
mod Phone
mod Auth
mod Routes
mod Commands
