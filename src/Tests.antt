-- ===== src/Tests.antt =====
-- Concrete runs, and the theorems at concrete inputs.
mod Snmp
mod Ber
mod Device
mod Boot
mod Improv
mod Ztp
mod ZtpSession
mod Trap
mod C8y
mod Liveness
