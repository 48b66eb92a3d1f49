-- ===== src/Device/Controls/Clamp.antt =====
-- The bounds of the controls.
use microcontroller_devices.Prelude.{◌≡◌, refl, arith}
use microcontroller_devices.Prelude.{List, [], ◌∷◌}
use microcontroller_devices.Prelude.Int.{ℤ, pos, ◌≤ℤ◌}
use microcontroller_devices.Device.Controls.{
  ControlsConfig, Controls, controls_init, at_least, at_most, app_control_set_setpoint,
  app_control_set_mode, ControlWrite, set_setpoint, set_running, set_mode, set_local_writes,
  apply_write, apply_writes,
}

-- A build with bounds that are in order and defaults within them.
pub record IsConfig (c : ControlsConfig) : Type 0 where
  pub in_order : c.setpoint_min ≤ℤ c.setpoint_max
  pub default_low : c.setpoint_min ≤ℤ c.setpoint_default
  pub default_high : c.setpoint_default ≤ℤ c.setpoint_max
  pub mode_low : pos 0 ≤ℤ c.mode_default
  pub mode_high : c.mode_default ≤ℤ pos 2

pub record IsValid (c : ControlsConfig) (s : Controls) : Type 0 where
  pub setpoint_low : c.setpoint_min ≤ℤ s.setpoint
  pub setpoint_high : s.setpoint ≤ℤ c.setpoint_max
  pub mode_low : pos 0 ≤ℤ s.mode
  pub mode_high : s.mode ≤ℤ pos 2

pub clamp_bounds :
    (lo hi v : ℤ)
    → lo ≤ℤ hi
    → (lo ≤ℤ at_most hi (at_least lo v)) × (at_most hi (at_least lo v) ≤ℤ hi)
clamp_bounds lo hi v h = ground arith

pub clamp_same : (lo hi v : ℤ) → lo ≤ℤ v → v ≤ℤ hi → at_most hi (at_least lo v) ≡ v
clamp_same lo hi v h k = ground arith

-- The setpoint that is stored and returned is within the bounds, and no value `w` within the
-- bounds lies strictly between it and the request.
pub app_control_set_setpoint_closest :
    (c : ControlsConfig) (s : Controls) (v w : ℤ)
    → c.setpoint_min ≤ℤ w
    → w ≤ℤ c.setpoint_max
    → let stored = (app_control_set_setpoint c s v).1.setpoint in
      ((app_control_set_setpoint c s v).0 ≡ stored)
      × (c.setpoint_min ≤ℤ stored)
      × (stored ≤ℤ c.setpoint_max)
      × (v ≤ℤ w → stored ≤ℤ w)
      × (w ≤ℤ v → w ≤ℤ stored)
unfolding app_control_set_setpoint
app_control_set_setpoint_closest c s v w h k =
    (refl, ground arith, ground arith, λ p. ground arith, λ p. ground arith)

apply_write-IsValid :
    (c : ControlsConfig) (s : Controls) (w : ControlWrite)
    → IsConfig c
    → IsValid c s
    → IsValid c (apply_write c s w)
unfolding apply_write app_control_set_setpoint app_control_set_mode
apply_write-IsValid c s (set_setpoint v) ok h =
    let b = clamp_bounds c.setpoint_min c.setpoint_max v ok.in_order in
    record {
      setpoint_low = b.0;
      setpoint_high = b.1;
      mode_low = h.mode_low;
      mode_high = h.mode_high;
    }
apply_write-IsValid c s (set_running v) ok h = record {
  setpoint_low = h.setpoint_low;
  setpoint_high = h.setpoint_high;
  mode_low = h.mode_low;
  mode_high = h.mode_high;
}
apply_write-IsValid c s (set_mode v) ok h =
    let b = clamp_bounds (pos 0) (pos 2) v (omega arith) in
    record {
      setpoint_low = h.setpoint_low;
      setpoint_high = h.setpoint_high;
      mode_low = b.0;
      mode_high = b.1;
    }
apply_write-IsValid c s (set_local_writes v) ok h = record {
  setpoint_low = h.setpoint_low;
  setpoint_high = h.setpoint_high;
  mode_low = h.mode_low;
  mode_high = h.mode_high;
}

-- From the defaults of a build with ordered bounds and defaults within them, every sequence of
-- control writes leaves the setpoint within its bounds and the mode within 0 and 2.
pub apply_writes-IsValid :
    (c : ControlsConfig) (ws : List ControlWrite)
    → IsConfig c
    → IsValid c (apply_writes c (controls_init c) ws)
unfolding controls_init apply_writes
apply_writes-IsValid c ws ok = go ws (controls_init c) (record {
  setpoint_low = ok.default_low;
  setpoint_high = ok.default_high;
  mode_low = ok.mode_low;
  mode_high = ok.mode_high;
})
  where
    go : (ws : List ControlWrite) (s : Controls) → IsValid c s → IsValid c (apply_writes c s ws)
    go [] s h = h
    go (w ∷ ws) s h = go ws (apply_write c s w) (apply_write-IsValid c s w ok h)
