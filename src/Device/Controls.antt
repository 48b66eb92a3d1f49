-- ===== src/Device/Controls.antt =====
-- lib/common/controls.c: the setpoint, the run flag and the mode that the frontends share.
pub mod Clamp
use microcontroller_devices.Prelude.{ℕ, zero, suc, ◌+◌, ◌-◌, ◌*◌, ◌/◌, ◌%◌, ◌^◌, ◌≤◌, ◌<◌}
use microcontroller_devices.Prelude.{ltb, leb, ◌==◌, if◌then◌else◌, ltb→lt, lt→ltb, leb→le, ==_iff}
use microcontroller_devices.Prelude.{◌≡◌, ◌≢◌, refl, sym, ap, ap₂, ◌∙◌, arith, ◌⊎◌, inl, inr, ◌↔◌}
use microcontroller_devices.Prelude.{Bool, true, false, ◌&&◌, ◌||◌, not, Bool-cases, Option-cases}
use microcontroller_devices.Prelude.{
  Option, none, some, List, [], ◌∷◌, ◌++◌, append-nil, append_assoc,
}
use microcontroller_devices.Prelude.{reverse, length, length-append, take, drop, All, All-append}
use microcontroller_devices.Prelude.{get_elem?, get_or, set, length-set}
use microcontroller_devices.Prelude.Int.{ℤ, pos, negsuc, pos_part, neg_part, ◌≤ℤ◌, ltb_ℤ}

-- The Kconfig values: CONFIG_APP_SETPOINT_MIN, _MAX and _DEFAULT, and the two other defaults.
pub record ControlsConfig : Type 0 where
  pub setpoint_min : ℤ
  pub setpoint_max : ℤ
  pub setpoint_default : ℤ
  pub running_default : Bool
  pub mode_default : ℤ

-- The static variables of the module.
pub record Controls : Type 0 where
  pub setpoint : ℤ
  pub running : Bool
  pub mode : ℤ
  pub local_writes : Bool

pub controls_init : ControlsConfig → Controls
controls_init c = record {
  setpoint = c.setpoint_default;
  running = c.running_default;
  mode = c.mode_default;
  local_writes = true;
}

abbrev pub at_least : ℤ → ℤ → ℤ
at_least lo v = if ltb_ℤ v lo then lo else v

abbrev pub at_most : ℤ → ℤ → ℤ
at_most hi v = if ltb_ℤ hi v then hi else v

abbrev pub app_control_setpoint : Controls → ℤ
app_control_setpoint s = s.setpoint

-- The value that is stored is the one that is returned.
unfoldable pub app_control_set_setpoint : ControlsConfig → Controls → ℤ → ℤ × Controls
app_control_set_setpoint c s value =
    let clamped = at_most c.setpoint_max (at_least c.setpoint_min value) in
    (clamped, record s { setpoint = clamped })

abbrev pub app_control_running : Controls → Bool
app_control_running s = s.running

abbrev pub app_control_set_running : Controls → Bool → Controls
app_control_set_running s value = record s { running = value }

abbrev pub app_control_mode : Controls → ℤ
app_control_mode s = s.mode

unfoldable pub app_control_set_mode : Controls → ℤ → ℤ × Controls
app_control_set_mode s value =
    let clamped = at_most (pos 2) (at_least (pos 0) value) in (clamped, record s { mode = clamped })

abbrev pub app_control_local_writes : Controls → Bool
app_control_local_writes s = s.local_writes

abbrev pub app_control_set_local_writes : Controls → Bool → Controls
app_control_set_local_writes s allowed = record s { local_writes = allowed }

-- A call of one of the setters.
pub data ControlWrite : Type 0 where
  set_setpoint : ℤ → ControlWrite
  set_running : Bool → ControlWrite
  set_mode : ℤ → ControlWrite
  set_local_writes : Bool → ControlWrite

unfoldable pub apply_write : ControlsConfig → Controls → ControlWrite → Controls
apply_write c s (set_setpoint v) = (app_control_set_setpoint c s v).1
apply_write c s (set_running v) = app_control_set_running s v
apply_write c s (set_mode v) = (app_control_set_mode s v).1
apply_write c s (set_local_writes v) = app_control_set_local_writes s v

unfoldable pub apply_writes : ControlsConfig → Controls → List ControlWrite → Controls
apply_writes c s [] = s
apply_writes c s (w ∷ ws) = apply_writes c (apply_write c s w) ws
