-- ===== src/Modbus/Server.antt =====
-- lib/modbus/modbus_server.c: the callbacks on registers, coils and discrete inputs.
pub mod Registers
pub mod Session
use microcontroller_devices.Prelude.{ℕ, zero, suc, ◌+◌, ◌-◌, ◌*◌, ◌/◌, ◌%◌, ◌^◌, ◌≤◌, ◌<◌}
use microcontroller_devices.Prelude.{ltb, leb, ◌==◌, if◌then◌else◌, ltb→lt, lt→ltb, leb→le, ==_iff}
use microcontroller_devices.Prelude.{◌≡◌, ◌≢◌, refl, sym, ap, ap₂, ◌∙◌, arith, ◌⊎◌, inl, inr, ◌↔◌}
use microcontroller_devices.Prelude.{Bool, true, false, ◌&&◌, ◌||◌, not, Bool-cases, Option-cases}
use microcontroller_devices.Prelude.{
  Option, none, some, List, [], ◌∷◌, ◌++◌, append-nil, append_assoc,
}
use microcontroller_devices.Prelude.{reverse, length, length-append, take, drop, All, All-append}
use microcontroller_devices.Prelude.{get_elem?, get_or, set, length-set}
use microcontroller_devices.Prelude.Int.{ℤ, pos, negsuc, wrap}
use microcontroller_devices.Device.Controls.{
  ControlsConfig, Controls, app_control_setpoint, app_control_set_setpoint, app_control_running,
  app_control_set_running, app_control_mode, app_control_set_mode, app_control_local_writes,
}

-- The measurements, in the order of the simulation.
abbrev pub meas_flow : ℕ
meas_flow = 0

abbrev pub meas_pressure : ℕ
meas_pressure = 1

abbrev pub meas_motor_temp : ℕ
meas_motor_temp = 2

abbrev pub meas_rpm : ℕ
meas_rpm = 3

abbrev pub meas_vibration : ℕ
meas_vibration = 4

abbrev pub meas_run_hours : ℕ
meas_run_hours = 5

-- What the callbacks read of the rest of the firmware. `data_source_sample` is a double: the
-- fields are its conversions `(uint16_t)(sample * k)`, `(uint16_t)(int16_t)(sample * k)`,
-- `(uint32_t)(sample * k)` and `float_bits(sample)`.
pub record Inputs : Type 0 where
  pub sample_u16 : ℕ → ℕ → ℕ
  pub sample_s16 : ℕ → ℕ → ℕ
  pub sample_u32 : ℕ → ℕ → ℕ
  pub sample_float_bits : ℕ → ℕ
  pub sim_fault : Bool
  pub net_connected : Bool

-- `-ENOTSUP` and `-EACCES`.
pub data Errno : Type 0 where
  enotsup : Errno
  eacces : Errno

-- What a callback returns, with the value that it stores through its pointer.
pub data Reply {ℓ} (A : Type ℓ) : Type ℓ where
  ok : A → Reply A
  err : Errno → Reply A

abbrev pub be_word : ℕ → ℕ → ℕ
be_word v word = if word == 0 then v / 2 ^ 16 % 2 ^ 16 else v % 2 ^ 16

pub input_reg_rd : Inputs → ℕ → Reply ℕ
input_reg_rd i addr =
    if addr == 0
    then ok (i.sample_u16 meas_flow 10)
    else (if addr == 1
        then ok (i.sample_u16 meas_pressure 100)
        else (if addr == 2
            then ok (i.sample_s16 meas_motor_temp 10)
            else (if addr == 3
                then ok (i.sample_u16 meas_rpm 1)
                else (if addr == 4
                    then ok (i.sample_u16 meas_vibration 100)
                    else (if addr == 10 || addr == 11
                        then ok (be_word (i.sample_u32 meas_run_hours 3600) (addr - 10))
                        else (if addr == 20 || addr == 21
                            then ok (be_word (i.sample_float_bits meas_flow) (addr - 20))
                            else (if addr == 22 || addr == 23
                                then ok (be_word (i.sample_float_bits meas_pressure) (addr - 22))
                                else (if addr == 24 || addr == 25
                                    then ok
                                        (be_word (i.sample_float_bits meas_motor_temp) (addr - 24))
                                    else err enotsup))))))))

pub holding_reg_rd : Controls → ℕ → Reply ℕ
holding_reg_rd s addr =
    if addr == 0
    then ok (wrap (2 ^ 16) (app_control_setpoint s))
    else (if addr == 1 then ok (wrap (2 ^ 16) (app_control_mode s)) else err enotsup)

abbrev pub control_write_allowed : Controls → Bool
control_write_allowed s = app_control_local_writes s

pub holding_reg_wr : ControlsConfig → Controls → ℕ → ℕ → Reply (Unit {0}) × Controls
holding_reg_wr c s addr reg =
    if leb addr 1 && not (control_write_allowed s)
    then (err eacces, s)
    else (if addr == 0
        then (ok tt, (app_control_set_setpoint c s (pos reg)).1)
        else (if addr == 1
            then (ok tt, (app_control_set_mode s (pos reg)).1)
            else (err enotsup, s)))

pub coil_rd : Controls → ℕ → Reply Bool
coil_rd s addr = if not (addr == 0) then err enotsup else ok (app_control_running s)

pub coil_wr : Controls → ℕ → Bool → Reply (Unit {0}) × Controls
coil_wr s addr state =
    if not (addr == 0)
    then (err enotsup, s)
    else (if not (control_write_allowed s)
        then (err eacces, s)
        else (ok tt, app_control_set_running s state))

pub discrete_input_rd : Inputs → Controls → ℕ → Reply Bool
discrete_input_rd i s addr =
    if addr == 0
    then ok (app_control_running s)
    else (if addr == 1
        then ok i.sim_fault
        else (if addr == 2 then ok i.net_connected else err enotsup))
