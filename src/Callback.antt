-- ===== src/Callback.antt =====
-- attempt_callback_auth/: the proof that a callback is authorized for one running attempt.
pub mod History
pub mod Headers
pub mod Verifier
pub mod Current
pub mod Authority
