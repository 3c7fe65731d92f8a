-- ===== src/Model.antt =====
-- The database rows that a node's backups live in, and what the tasks send.
pub mod Status
pub mod Rows
