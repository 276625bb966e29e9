-- ===== src/Protocol.antt =====
-- src-tauri/src/protocol: the configuration, the commands and the serial client.
pub mod Float
pub mod Modes
pub mod Config
pub mod Port
pub mod Logged
pub mod Client
