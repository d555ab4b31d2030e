-- ===== src/Graph.antt =====
-- skyhook/graph.go and app/graph.go: execution graphs.
pub mod Node
pub mod Hash
use skyhookml.Prelude.{nat_eq, text_eq, pair_eq}
