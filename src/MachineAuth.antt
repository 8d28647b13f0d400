-- ===== src/MachineAuth.antt =====
-- machine_auth/: the signature of a workflow service and the single use of its nonce.
pub mod Percent
pub mod Path
pub mod Utf8
pub mod Query
pub mod Signing
pub mod Headers
pub mod Authenticator
