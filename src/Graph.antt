-- ===== src/Graph.antt =====
-- The graph layer, src/chainbreak/graph.
pub mod Divergence
pub mod Paths
pub mod Builder
mod Tests
