-- ===== src/Boot.antt =====
-- The bootloader: bootloader/src/main.rs and bootloader/src/kernel.rs.
pub mod Image
pub mod Firmware
pub mod Loader
pub mod Copied
pub mod Overlay
pub mod Bounds
pub mod Loaded
pub mod File
pub mod Started
pub mod Sample
mod Examples
