-- ===== src/Providers/Fake.antt =====
-- The simulated provider, src/chainbreak/providers/fake.
pub mod Engine
pub mod Session
pub mod Consistency
pub mod Clock
pub mod Probes
pub mod Adapter
mod Tests
