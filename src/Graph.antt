-- ===== src/Graph.antt =====
-- The repository (internal/graph): the statements that it sends to the database.
pub mod Literals
