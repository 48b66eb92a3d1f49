-- ===== src/Device.antt =====
-- The shared device data model (lib/common).
pub mod SimSwitch
pub mod Controls
pub mod Liveness
