-- ===== src/Ptp.antt =====
-- The wire format of PTP and MTP (crates/ptp-proto/src/lib.rs).
pub mod Error
pub mod Header
pub mod Container
pub mod Utf16
pub mod Reader
pub mod Text
pub mod Object
pub mod PropList
pub mod Device
mod Examples
