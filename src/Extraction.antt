-- ===== src/Extraction.antt =====
-- What is worth storing, and what says the same thing (internal/extraction).
pub mod Dedup
pub mod Contradiction
