-- ===== src/Scenarios.antt =====
-- The scenario compiler, src/chainbreak/scenarios.
pub mod Spec
pub mod Derivation
pub mod Plan
pub mod Bounded
pub mod Universe
pub mod Phases
pub mod Compiler
pub mod Tests
