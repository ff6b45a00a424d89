-- ===== src/Proxy.antt =====
-- The frontend protocol server of internal/proxy/server.go.
pub mod TwoPhase
pub mod Temporary
pub mod Session
pub mod Route
