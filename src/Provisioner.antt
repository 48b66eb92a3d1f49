-- ===== src/Provisioner.antt =====
-- The Wi-Fi provisioner.
pub mod Improv
pub mod C8y
