-- ===== src/Models.antt =====
-- db/models: the tables that the commands read and write, a record for each row.
mod Request
mod Execution
mod Command
mod Evidence
mod Machine
mod Intake
mod Identity
unfoldable pub use Request.*
unfoldable pub use Execution.*
unfoldable pub use Command.*
pub use Evidence.*
unfoldable pub use Machine.*
pub use Intake.*
pub use Identity.*
