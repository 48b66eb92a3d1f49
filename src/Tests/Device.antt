-- ===== src/Tests/Device.antt =====
-- The simulation, the controls, the Modbus callbacks and the button.
use microcontroller_devices.Prelude.{◌*◌, ◌/◌, ◌%◌}
use microcontroller_devices.Prelude.{ltb, ◌==◌}
use microcontroller_devices.Prelude.{◌≡◌, refl, arith}
use microcontroller_devices.Prelude.{true, false, ◌&&◌}
use microcontroller_devices.Prelude.{List, [], ◌∷◌}
use microcontroller_devices.Prelude.{All}
use microcontroller_devices.Prelude.Int.{pos, negsuc}
use microcontroller_devices.Device.SimSwitch.{
  SwitchConfig, clamp_count, data_source_init, sim_switch_if_oper_status, app_sim_fault,
}
use microcontroller_devices.Device.SimSwitch.Flap.{steps}
use microcontroller_devices.Device.SimSwitch.Links.{link_at, sim_switch_if_oper_status-steps}
use microcontroller_devices.Device.SimSwitch.Fault.{app_sim_fault-steps}
use microcontroller_devices.Device.SimSwitch.Invariant
use microcontroller_devices.Device.Controls.{
  ControlsConfig, Controls, controls_init, set_setpoint, set_mode, apply_writes,
}
use microcontroller_devices.Device.Controls.Clamp.{
  IsConfig, apply_writes-IsValid, app_control_set_setpoint_closest,
}
use microcontroller_devices.Device.Controls.Clamp
use microcontroller_devices.Modbus.Server.{Inputs}
use microcontroller_devices.Modbus.Server.Session.{
  Request, write_reg, write_coil, writes, targets, writes-apply_writes,
}
use microcontroller_devices.Button.Gesture.{
  gesture_none, provision, GestureCfg, GestureState, gesture_tick, run,
}
use microcontroller_devices.Button.Gesture.Pattern.{Tap, events, IsIdle, meaning, gesture_tick-run}

abbrev two_ports : SwitchConfig
two_ports = record { if_count = 2; flap_period_steps = 3 }

sim_switch_if_oper_status-steps_example :
    sim_switch_if_oper_status (steps 4 (data_source_init two_ports)) 0
    ≡ link_at (clamp_count two_ports) (data_source_init two_ports).flap_idx 3 4 0
unfolding clamp_count
sim_switch_if_oper_status-steps_example =
    sim_switch_if_oper_status-steps two_ports 4 0 (omega arith) (omega arith)

app_sim_fault-steps_example :
    app_sim_fault (steps 4 (data_source_init two_ports))
    ≡ (ltb 1 (clamp_count two_ports) && 4 / 3 % 2 == 1)
app_sim_fault-steps_example = app_sim_fault-steps two_ports 4 (omega arith)

steps-IsValid_example : Invariant.IsValid (steps 5 (data_source_init two_ports))
steps-IsValid_example = Invariant.steps-IsValid two_ports 5

abbrev pump : ControlsConfig
pump = record {
  setpoint_min = pos 0;
  setpoint_max = pos 100;
  setpoint_default = pos 50;
  running_default = true;
  mode_default = pos 1;
}

pump-IsConfig : IsConfig pump
pump-IsConfig = record {
  in_order = omega arith;
  default_low = omega arith;
  default_high = omega arith;
  mode_low = omega arith;
  mode_high = omega arith;
}

abbrev controls : Controls
controls = record { setpoint = pos 50; running = true; mode = pos 1; local_writes = true }

apply_writes-IsValid_example :
    Clamp.IsValid pump
      (apply_writes pump (controls_init pump) (set_setpoint (pos 700) ∷ set_mode (negsuc 4) ∷ []))
apply_writes-IsValid_example =
    apply_writes-IsValid pump (set_setpoint (pos 700) ∷ set_mode (negsuc 4) ∷ []) pump-IsConfig

abbrev requests : List Request
requests = write_reg 0 700 ∷ write_reg 9 1 ∷ write_coil 0 false ∷ []

writes-apply_writes_example :
    writes pump controls requests ≡ apply_writes pump controls (targets requests)
writes-apply_writes_example = writes-apply_writes pump controls requests refl

abbrev cloud_held : Controls
cloud_held = record controls { local_writes = false }

abbrev inputs : Inputs
inputs = record {
  sample_u16 = λ i k. i * k;
  sample_s16 = λ i k. i * k;
  sample_u32 = λ i k. 100000;
  sample_float_bits = λ i. 0x42280000;
  sim_fault = false;
  net_connected = true;
}

abbrev five_presses : GestureCfg
five_presses = record {
  press_count = 2;
  identify_count = 3;
  window_ms = 4000;
  short_max_ms = 600;
  quiet_ms = 1000;
  erase_ms = 8000;
}

abbrev idle_state : GestureState
idle_state = record {
  cfg = five_presses;
  pressed = false;
  armed = false;
  spoiled = false;
  presses = 0;
  first_press = 0;
  press_at = 0;
  last_release = 0;
}

idle_state-IsIdle : IsIdle idle_state
idle_state-IsIdle = record { is_up = refl; not_armed = refl; not_spoiled = refl; no_press = refl }

abbrev tap : Tap
tap = record { pressed_at = 100; released_at = 200 }

abbrev tap_again : Tap
tap_again = record { pressed_at = 400; released_at = 500 }

two_taps_mean : meaning five_presses tap (tap_again ∷ []) ≡ provision
two_taps_mean = refl

gesture_tick-run_example :
    All (λ r. r ≡ gesture_none) (run idle_state (events (tap ∷ tap_again ∷ []))).0
    × ((gesture_tick (run idle_state (events (tap ∷ tap_again ∷ []))).1 1600).0
        ≡ meaning five_presses tap (tap_again ∷ []))
    × IsIdle (gesture_tick (run idle_state (events (tap ∷ tap_again ∷ []))).1 1600).1
    × ((gesture_tick (run idle_state (events (tap ∷ tap_again ∷ []))).1 1600).1.cfg ≡ five_presses)
gesture_tick-run_example =
    gesture_tick-run idle_state tap (tap_again ∷ []) 1600 idle_state-IsIdle
      ((λ p. omega arith), ((λ p. omega arith), tt)) (omega arith) (omega arith)

abbrev no_erase : GestureCfg
no_erase = record five_presses { erase_ms = 0 }

abbrev held_state : GestureState
held_state = record idle_state { pressed = true; press_at = 100 }
