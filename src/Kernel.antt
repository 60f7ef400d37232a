-- ===== src/Kernel.antt =====
-- The Linux driver, software/kernel.
pub mod Const
pub mod Health
pub mod Keccak
pub mod Device
pub mod Extract
pub mod Ftdi
pub mod Transfer
pub mod Read
pub mod Interface
pub mod Probe
mod Tests
