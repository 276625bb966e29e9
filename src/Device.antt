-- ===== src/Device.antt =====
-- firmware: the serial side of the device that the application talks to.
pub mod Strings
pub mod Settings
pub mod Nvs
pub mod Handler
pub mod Link
