-- ===== src/Api.antt =====
-- api/: the handlers of the HTTP routes, from the headers and the body to the answer.
pub mod Transport
pub mod Intake
pub mod Commands
pub mod StartAi
pub mod AttemptStart
