-- ===== src/Usb.antt =====
-- src-tauri/src/usb: the detection of the CH341 adapter and the line interface of a serial port.
pub mod Detector
pub mod Handle
pub mod Real
