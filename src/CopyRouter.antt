-- ===== src/CopyRouter.antt =====
-- Shard-aware COPY of internal/copyrouter/copy.go.
pub mod Plan
pub mod State
pub mod Keys
pub mod Binary
pub mod Records
pub mod Fields
pub mod Stream
pub mod Output
