-- ===== src/Modbus/Server/Registers.antt =====
-- What a client reads: the 32-bit values in two registers, and a control that it wrote.
use microcontroller_devices.Prelude.{ℕ, ◌+◌, ◌*◌, ◌/◌, ◌%◌, ◌^◌, ◌≤◌, ◌<◌}
use microcontroller_devices.Prelude.{◌≡◌, refl, arith}
use microcontroller_devices.Prelude.{Bool, true}
use Prim.Native.Nat.{min, max}
use microcontroller_devices.Prelude.Int.{pos}
use microcontroller_devices.Device.Controls.{
  ControlsConfig, Controls, app_control_set_setpoint, app_control_set_mode,
}
use microcontroller_devices.Modbus.Server.{
  Inputs, ok, input_reg_rd, holding_reg_rd, holding_reg_wr, coil_rd, coil_wr, discrete_input_rd,
  meas_run_hours, meas_flow, meas_pressure, meas_motor_temp,
}

-- The two registers at `addr` hold `v`, the high word first.
pub record HoldsPair (i : Inputs) (addr v : ℕ) : Type 0 where
  pub high : ℕ
  pub low : ℕ
  pub reads_high : input_reg_rd i addr ≡ ok high
  pub reads_low : input_reg_rd i (addr + 1) ≡ ok low
  pub value : high * 2 ^ 16 + low ≡ v

-- The run time at 10, and the flow, the pressure and the motor temperature as floats at 20, 22
-- and 24: the two registers of a pair, the high word first, make up the 32-bit value, where
-- these values have 32 bits.
pub input_reg_rd_pairs :
    (i : Inputs)
    → i.sample_u32 meas_run_hours 3600 < 2 ^ 32
    → ((n : ℕ) → i.sample_float_bits n < 2 ^ 32)
    → HoldsPair i 10 (i.sample_u32 meas_run_hours 3600)
      × HoldsPair i 20 (i.sample_float_bits meas_flow)
      × HoldsPair i 22 (i.sample_float_bits meas_pressure)
      × HoldsPair i 24 (i.sample_float_bits meas_motor_temp)
unfolding input_reg_rd
input_reg_rd_pairs i h k = (
  record { high = _; low = _; reads_high = refl; reads_low = refl; value = words _ h },
  record { high = _; low = _; reads_high = refl; reads_low = refl; value = words _ (k meas_flow) },
  record {
    high = _;
    low = _;
    reads_high = refl;
    reads_low = refl;
    value = words _ (k meas_pressure);
  },
  record {
    high = _;
    low = _;
    reads_high = refl;
    reads_low = refl;
    value = words _ (k meas_motor_temp);
  },
)
  where
    words : (v : ℕ) → v < 2 ^ 32 → v / 2 ^ 16 % 2 ^ 16 * 2 ^ 16 + v % 2 ^ 16 ≡ v
    words v l = omega arith

-- With local writes allowed, and setpoint bounds that are in order, not negative and in 16 bits,
-- a holding register reads back as the value written: clamped to the setpoint's bounds at 0, and
-- to 2 at 1.
pub holding_reg_rd-holding_reg_wr :
    (c : ControlsConfig) (s : Controls) (lo hi reg : ℕ)
    → s.local_writes ≡ true
    → c.setpoint_min ≡ pos lo
    → c.setpoint_max ≡ pos hi
    → lo ≤ hi
    → hi < 2 ^ 16
    → (holding_reg_rd (holding_reg_wr c s 0 reg).1 0 ≡ ok (min hi (max lo reg)))
      × (holding_reg_rd (holding_reg_wr c s 1 reg).1 1 ≡ ok (min 2 reg))
unfolding holding_reg_rd holding_reg_wr app_control_set_setpoint app_control_set_mode
holding_reg_rd-holding_reg_wr c s lo hi reg allowed low high h k =
    (rw (allowed, low, high) (ground arith), rw allowed (ground arith))

-- The coil and discrete input 0 both show what the last allowed write of the coil stored.
pub coil_rd-coil_wr :
    (i : Inputs) (s : Controls) (state : Bool)
    → s.local_writes ≡ true
    → (coil_rd (coil_wr s 0 state).1 0 ≡ ok state)
      × (discrete_input_rd i (coil_wr s 0 state).1 0 ≡ ok state)
unfolding coil_rd coil_wr discrete_input_rd
coil_rd-coil_wr i s state allowed = (rw allowed refl, rw allowed refl)
