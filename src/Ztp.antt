-- ===== src/Ztp.antt =====
-- Zero-touch provisioning (apps/wifi-provisioner/src/ztp*.c).
pub mod Errors
pub mod Manifest
pub mod Apply
pub mod Frame
pub mod Session
pub mod Time
