-- ===== src/Service.antt =====
-- The services behind the API (internal/service).
pub mod Consolidate
pub mod Proto
pub mod Handlers
pub mod Health
