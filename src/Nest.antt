-- ===== src/Nest.antt =====
-- The stores of internal/nest, whose data live in etcd.
pub mod Etcd
pub mod Sequence
pub mod Maintenance
pub mod TopologyStore
