-- ===== src/Server.antt =====
-- The server's own endpoints (internal/server).
pub mod Probes
