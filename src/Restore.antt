-- ===== src/Restore.antt =====
-- Restores of backups: apps/_tasks/integration/restore.py and restore_common.py.
pub mod Paths
pub mod Fetch
pub mod Checks
pub mod Identifier
pub mod Tasks
