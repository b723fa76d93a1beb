-- ===== src/Providers.antt =====
-- The providers, src/chainbreak/providers.
pub mod Namespace
pub mod Fake
