-- ===== src/Usb.antt =====
-- The USB descriptors (crates/usb-freebsd/src).
pub mod Descriptor
pub mod Mtp
pub mod Bos
pub mod Device
mod Examples
