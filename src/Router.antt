-- ===== src/Router.antt =====
-- Shard-aware routing of internal/router/router.go.
pub mod Bytes
pub mod Scalar
pub mod Decimal
pub mod Target
pub mod Tree
pub mod Predicate
pub mod Statement
pub mod Analyze
