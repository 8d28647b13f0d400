-- ===== src/Auth.antt =====
-- auth/: who calls, from a bearer token: the verification of the token with cached keys, and the
-- actor with its role.
pub mod Verifier
pub mod Human
pub mod Entitled
pub mod Admitting
