-- ===== src/Flash.antt =====
-- src-tauri/src/flash: the esptool runner and the progress of the native flasher.
pub mod Sha
pub mod Progress
pub mod Esptool
pub mod Native
