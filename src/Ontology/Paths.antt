-- ===== src/Ontology/Paths.antt =====
-- The paths that the search finds, as lists of relationships.
pub mod Search
pub mod Complete
