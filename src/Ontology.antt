-- ===== src/Ontology.antt =====
-- crates/greentic-sorx-core/src/ontology_graph.rs: concepts, the relationships between them, and the
-- search for paths and neighbours.
pub mod Graph
pub mod Walk
pub mod Neighbors
pub mod Paths
mod Examples
