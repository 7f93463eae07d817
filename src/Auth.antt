-- ===== src/Auth.antt =====
-- API keys, rate limits, and who gets through (internal/auth).
pub mod Keys
pub mod Bucket
pub mod Limiter
pub mod Gate
