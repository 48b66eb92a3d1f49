-- ===== src/Ztp/Apply.antt =====
-- apps/wifi-provisioner/src/ztp_apply.c: the modules of a manifest are staged, and then committed.
pub mod Ini
pub mod Wifi
pub mod C8y
pub mod Staging
pub mod Atomic
pub mod Runs
pub mod Printed
pub mod Scrubbed
