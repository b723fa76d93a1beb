-- ===== src/Capabilities.antt =====
-- src/chainbreak/capabilities: the catalog's bindings, their validation, and the guard on a probe.
pub mod Loader
pub mod Registry
pub mod Guard
pub mod Preconditions
mod Tests
