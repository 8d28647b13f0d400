-- ===== src/Intake.antt =====
-- intake/: the acceptance of a service request, once for each idempotency key.
pub mod Payload
pub mod Phone
pub mod Rows
pub mod New
pub mod Service
pub mod Keep
pub mod Rejecting
pub mod Ledger
pub mod Made
pub mod Refined
pub mod Again
pub mod Failing
pub mod Logged
