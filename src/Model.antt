-- ===== src/Model.antt =====
-- The domain types (pkg/model): what every layer above agrees on.
pub mod Content
pub mod Memory
