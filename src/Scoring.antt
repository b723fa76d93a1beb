-- ===== src/Scoring.antt =====
-- The scoring layer, src/chainbreak/scoring.
pub mod Coverage
pub mod Categories
mod Tests
