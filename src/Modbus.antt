-- ===== src/Modbus.antt =====
-- lib/modbus: the Modbus TCP frontend of the shared data model.
pub mod Server
