-- ===== src/Embedding.antt =====
-- Turning texts into vectors (internal/embedding).
pub mod Batch
