-- ===== src/Core.antt =====
-- The domain layer, src/chainbreak/core.
pub mod Authority
pub mod Enums
pub mod Errors
pub mod Models
pub mod Credentials
pub mod Capabilities
pub mod Graph
pub mod Safety
pub mod Clock
pub mod Ids
mod Tests
