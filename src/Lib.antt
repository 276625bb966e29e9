-- ===== src/Lib.antt =====
-- Freematics Config Manager: the desktop application, which configures, backs up and flashes a
-- Freematics ONE+ telematics device over a serial line. Its Rust side, the firmware that answers it,
-- and the shell of its window.
--
-- The program. The user interface calls commands (src-tauri/src/commands.rs). A command opens a
-- serial port and runs one session with it: it reads the configuration of the device, writes it
-- field by field, polls live data, restarts the device, or makes and applies a backup. Detection
-- finds the port of a USB adapter, and flashing replaces the firmware. The parts meet as follows:
-- the serial client stands on a port (the trait `SerialPortOps`), the configuration is parsed from
-- the lines that the client reads and printed as the commands that it sends, and a backup is a
-- configuration with the version and the digest of a firmware.
--
-- The files, with the code that each models:
--   Base and below       lists, signed integers, results and Boolean tests that the parts share
--   Text and below       the functions of `str` that the code calls; UTF-8, decimal numerals
--   Protocol/Modes       the enums and the Booleans of src-tauri/src/protocol/types.rs
--   Protocol/Config      `DeviceConfig` there: `default`, `from_dump_lines`, `to_set_commands`
--   Protocol/Port        the port and `io::Error`; how actions on a port follow each other
--   Protocol/Client      src-tauri/src/protocol/client.rs: `send_inner` (send), `read_line`,
--                        `read_until`, `redact`
--   Protocol/Client/Ack  `command_expect_ok`, `set`, `save_config`, `reboot`, `query`, with
--                        src-tauri/src/protocol/commands.rs
--   Protocol/Client/Dump `dump_config`
--   Protocol/Client/Live `get_live_data`, `live_num`, `live_str`
--   Protocol/Logged      a port with a record of what was written to it
--   Backup/Schema        src-tauri/src/backup/schema.rs; `get_firmware_info` of commands.rs
--   Backup/Export        src-tauri/src/backup/export.rs
--   Backup/Import        src-tauri/src/backup/import.rs
--   Flash/Sha, Flash/Esptool, Flash/Progress   src-tauri/src/flash/esptool.rs
--   Flash/Native         src-tauri/src/flash/native.rs; Flash/Native/Memory states what a write of
--                        espflash does to the flash memory of the device
--   Usb/Detector         src-tauri/src/usb/detector.rs
--   Usb/Real, Usb/Handle `RealSerialPort`, `SerialPortHandle` of src-tauri/src/usb/serial_port.rs
--   Device/Settings, Device/Settings/Printed, Device/Nvs   firmware/overlay/configstore.cpp: the
--                        configuration in the memory and in the flash of the device
--   Device/Handler       firmware/overlay/serial_handler.cpp, which answers the application
--   Device/Strings       what they use of `String` of firmware/test/Arduino.h
--   Device/Link          the application's port with that firmware at its other end, and the computer
--                        beside it with its files
--   Commands             the sessions of src-tauri/src/commands.rs: `with_serial` and its users
--   Commands/Flashing    `flash_firmware_cmd` there
--   Commands/Threads     `serial_lock` and the blocking tasks there, as a step relation on threads
--   Commands/Dialogs     the commands there that ask for a path
--   Web                  src/lib/state.ts, the store of the window
--   Web/Shell            src/main.ts: what is drawn, the listener of the store, the handlers
--   Web/Steps            what the user presses there and what comes back from an `await`, as steps
--   Web/Wizard           src/views/flash-wizard.ts, with its steps
--   Startup              the environment variables of src-tauri/src/main.rs
--   Tests and below      concrete inputs
-- The other files below these hold proofs and are named for what they prove.
--
-- How state is modelled. A function that takes `&mut self` is an action: from the state of the
-- port (or of the file system) it gives how the call ends and the state afterwards. It ends
-- `done` with a value, or `failed` with an error. Code that the source only calls is a
-- parameter: the port (Protocol/Port), files (Files), JSON (Backup/Schema), floating point
-- numbers (Protocol/Float), the digest and the subprocess of esptool (Flash), the crates
-- espflash (Flash/Native) and serialport (Usb/Real), the ports of the system (Usb/Detector), how
-- one is opened (`System` of Commands), the device's NVS, C number conversions and live data
-- (`Firmware` of Device/Handler), and the print of a text by `{:?}` (`debug` of the client). Texts
-- are lists of code points, bytes are numbers, and `i32` and `u16` values are integers.
--
-- Threads. A session is one action where it runs alone (`with_serial`). Commands/Threads takes it
-- apart into its accesses to the world, and lets threads take steps in any order, under the lock and
-- the poisoning of std's `Mutex`; `run` there is a session that runs alone. A session whose reads go
-- on for ever has come to `spinning`, and keeps the lock: no step takes it from there.
--
-- The window. Every handler runs to its next `await`; what comes back from one is a step of its own,
-- at any time. A view stands for the timers that it has started, and the listener of the store runs
-- within itself where the source makes it so.
--
-- The link. Device/Link loses no byte and takes no time: the firmware has handled what was sent when
-- the application flushes, and the clock stands still.
--
-- Bounds. `read_line` loops until the device pauses or ends a line, which a port need not ever do.
-- The model bounds the bytes of a line by `fuel` of the client and ends with `spinning`, which is
-- no result of the program, when it is used up. The 3 attempts of a command and of a dump, and the
-- 512 lines of one wait for an answer are constants of the source. The lines of a dump have no
-- limit there, and are bounded by `fuel` as well.
--
-- Not modelled: the rest of main.rs, which registers the commands and sets up the window and the
-- log; the log, apart from `redact`; of the user interface in TypeScript the forms and what is inside
-- a view other than the wizard; and of the firmware the sketch, its telemetry and the windows of
-- time that keep the device awake and quiet.
pub mod Base
pub mod Text
pub mod Protocol
pub mod Files
pub mod Backup
pub mod Flash
pub mod Usb
pub mod Device
pub mod Commands
pub mod Startup
pub mod Web
mod Tests
