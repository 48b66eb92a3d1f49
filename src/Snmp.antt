-- ===== src/Snmp.antt =====
-- The SNMPv2c frontend (lib/snmp): BER codec, MIB view, agent and traps.
pub mod Ber
pub mod Mib
pub mod Agent
pub mod Trap
