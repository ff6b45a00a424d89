-- ===== src/Topology.antt =====
-- The versioned routing catalog of internal/topology/catalog.go.
pub mod Catalog
pub mod Validate
pub mod WellFormed
pub mod Placement
pub mod Transition
pub mod Bootstrap
