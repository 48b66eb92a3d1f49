-- ===== src/Snmp/Ber.antt =====
-- lib/snmp/snmp_ber.c and snmp_ber.h: the BER codec of the SNMP agent.
-- A byte is a number below 256, a uint32_t one below 2 ^ 32, and an int32_t is its two's complement
-- bit pattern. `x & 0xFF` is `x % 256`, `x >> 8` is `x / 256`, and so on.
pub mod Encoder
pub mod Decoder
pub mod Spec
pub mod Length
