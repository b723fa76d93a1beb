-- ===== src/Core/Graph.antt =====
-- `AuthorizationGraph` (src/chainbreak/core/models.py).
pub mod Kahn
pub mod Counting
pub mod Acyclic
pub mod Validation
pub mod Invariants
pub mod Walk
pub mod Tests
