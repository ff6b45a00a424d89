-- ===== src/Backend.antt =====
-- internal/backend/backend.go: the connections to the Burrows.
pub mod RuntimeParams
