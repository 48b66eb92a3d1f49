-- ===== src/Boot.antt =====
-- Choosing the image to boot: the application or the Wi-Fi provisioner.
pub mod Request
pub mod Hook
pub mod Handoff
