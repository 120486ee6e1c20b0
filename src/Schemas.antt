-- ===== src/Schemas.antt =====
-- The enumerations of agentloopgate/schemas/models.py, and the equality of those that the code
-- compares. The records and their validators stand in the children.
pub mod Contract
pub mod Evidence
pub mod Run
pub mod Candidate
mod Enums
pub mod Texts
pub use Enums.*
pub use Texts.*
