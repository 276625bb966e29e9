-- ===== src/Tests.antt =====
-- The theorems at concrete inputs, and runs of the definitions.
pub mod Toys
pub mod Bench
mod Transfers
mod Configs
mod Clients
mod Answers
mod Backups
mod Devices
mod Dumps
mod Endings
mod Firmwares
mod Flashes
mod Machines
mod Windows
mod Wizards
mod Refusals
mod Sessions
mod Threads
