-- ===== src/Backup.antt =====
-- src-tauri/src/backup: the backup file, its export and its import.
pub mod Schema
pub mod Export
pub mod Import
