-- ===== src/Lib.antt =====
-- The firmware of the thin-edge microcontroller devices: a model of its own logic, without the
-- calls of Zephyr, MCUboot and the vendored libraries, and the properties of that model.
--
-- The parts and how they interact. A device simulates a data source (lib/common): a switch whose
-- links flap, or a machine with a setpoint, a mode and a run flag. A frontend serves it: the SNMP
-- agent (lib/snmp) reads the switch, and the Modbus server (lib/modbus) reads the simulation and
-- writes the controls. The button (lib/common/button_gesture.c) hands its gestures to the hand-off
-- (lib/common/prov_handoff.c), which sets a boot request in flash (lib/common/boot_request.c);
-- MCUboot's hook (lib/mcuboot-hooks) reads it at the next boot and launches the Wi-Fi provisioner
-- (apps/wifi-provisioner), which receives credentials over the Improv RPC, or a manifest of
-- modules over the zero-touch service (its ztp files), which it stages and then commits.
--
-- Which file models which part:
--   Snmp/Ber/Encoder: the writer of lib/snmp/snmp_ber.c. `struct ber_enc` is a record with the
--     memory as a function; each ber_put_* is the function of that name. Below it, Buffer is about
--     put_bytes, Form about lengths and headers, Numbers and Writers about the values.
--   Snmp/Ber/Decoder: the reader of the same file. A `struct ber_dec` is the list of the bytes
--     left, and `false` is `none`. Below it, Tlv, Numbers and Order (oid_cmp).
--   Snmp/Ber/Spec: BER by itself, which both are compared with; Snmp/Ber/Length: its sizes.
--   Snmp/Mib: lib/snmp/snmp_mib.c. A pointer into the table is an index. Below it, Table and Rows
--     are about mib_init, Search and Walk about the lookups, Values about mib_put_value.
--   Snmp/Agent: lib/snmp/snmp_agent.c, with plan_getbulk in Agent/Bulk and handle_request in
--     Agent/Handler. Spec and Answer say what a response is; Encode, Parse, Fuel and
--     Refine are proofs.
--   Snmp/Trap: lib/snmp/snmp_trap.c; Message is about the bytes, Links about what is
--     recorded and Watcher about the loop.
--   Device/SimSwitch: lib/common/sim_switch.c; Flap, Links, Fault and Invariant are proofs.
--   Device/Controls: lib/common/controls.c; Clamp is about its bounds.
--   Device/Liveness: lib/common/liveness.c; Feeding is about the watchdog channels, Report about
--     the boot behind a stall.
--   Modbus/Server: the callbacks of lib/modbus/modbus_server.c; Registers is about reading,
--     Session about sequences of writes.
--   Button/Gesture: lib/common/button_gesture.c; Pattern is about presses, Erase about the hold.
--   Boot/Request, Boot/Hook, Boot/Handoff: lib/common/boot_request.c,
--     lib/mcuboot-hooks/prov_hooks.c and lib/common/prov_handoff.c.
--   Provisioner/Improv: write_rpc and handle_frame of apps/wifi-provisioner/src/improv.c; Settings
--     is about a settings frame, Receive about frames in several writes.
--   Provisioner/C8y: lib/common/prov_c8y.c over a settings store; Kept is about what it holds.
--   Ztp/Time and Ztp/Manifest: apps/wifi-provisioner/src/ztp_manifest.c. A slice is a list of bytes
--     and a cursor what remains of the text. Below Time, Calendar has the arithmetic of days,
--     NextDay the calendar itself and RoundTrip the texts; below Manifest, Lines is about the
--     records, Enroll about the response, Modules about module lines and Runs about the loops.
--   Ztp/Apply: ztp_apply.c of the same folder: Ini, Wifi, C8y and Staging are its four sections;
--     Atomic, Runs, Scrubbed and Printed are proofs. What a run writes to the device is
--     a list of effects.
--   Ztp/Frame: the framing and the clock of ztp.c; Reassembly and Sending are proofs.
--   Ztp/Session: its handlers, the advertising and the loop of ztp_run, as a step function on
--     events; Window, Restart and Stall are proofs. Ztp/Errors: the error numbers.
--   Prelude: shared names, lists over the native numbers, chains of fallible steps, and integers.
--   Tests: concrete runs.
--
-- Integers are natural numbers with the wrap-around of their width written out; an int32_t of the
-- codec is its 32-bit pattern, and the controls use signed integers. Times are natural numbers of
-- milliseconds, and a test on a difference of times is written as a sum.
--
-- Bounds and fuel. parse_varbinds runs on the number of bytes of the list: an element has at least
-- two bytes (see Snmp/Agent/Fuel). The loops over the bytes of an integer run on the
-- sizes of their buffers: four bytes for a 32-bit value, and five for a length, which has at most
-- four in a size_t of 32 bits; the groups of a sub-identifier are at most five. The loop of
-- plan_getbulk runs on the repetitions that the request asks for. The Kconfig values (interface
-- count, varbinds of a request, bounds of the setpoint) are parameters.
--
-- The loops over the lines of a text run on its length, since a line takes at least a byte, and so
-- does the staging loop over the modules (see Ztp/Apply/Runs); notify_retry makes the 250 attempts
-- of the source. A loop `while (ztp_kv_next(...))` is a fold over the list of the records.
--
-- What is a parameter: the flash map (its documented behaviour is a hypothesis), MCUboot's image
-- loading and validation, the stored Wi-Fi credentials, the conversions of the doubles that
-- data_source_sample returns, and for the zero-touch files base64, ztp_open (ztp_crypto.c over PSA),
-- the trial of a network, the stores of credentials and settings, the envelope that was built, and
-- what each notification returns; and the settings store (a hypothesis on what it keeps) and the
-- client's setters of prov_c8y.c.
--
-- What is not modelled: sockets, threads, Bluetooth, LED and log, which are I/O; the window of
-- Improv, the captive portal, the envelope and the cryptography of the zero-touch service; the OPC
-- UA frontend, which is calls of a vendored library; the simulations on doubles
-- (lib/common/sim_pump.c and sim_environment.c); the network, display and identity
-- modules, which are mostly calls of Zephyr.
pub mod Prelude
pub mod Snmp
pub mod Device
pub mod Button
pub mod Boot
pub mod Provisioner
pub mod Modbus
pub mod Ztp
pub mod Tests
