-- ===== src/Execution.antt =====
-- The execution layer, src/chainbreak/execution.
pub mod Polling
pub mod Revert
mod Tests
