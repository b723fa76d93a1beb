-- ===== src/Analysis.antt =====
-- The analysis layer, src/chainbreak/analysis.
pub mod Divergence
pub mod Cells
pub mod Authority
pub mod Timing
pub mod Confidence
pub mod Findings
pub mod Detector
mod Tests
pub mod Rules
pub mod Tasks
pub mod Stale
