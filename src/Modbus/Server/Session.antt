-- ===== src/Modbus/Server/Session.antt =====
-- A sequence of writes by Modbus clients.
use microcontroller_devices.Prelude.{ℕ}
use microcontroller_devices.Prelude.{◌==◌, if◌then◌else◌}
use microcontroller_devices.Prelude.{◌≡◌, refl, ap, ◌∙◌, arith}
use microcontroller_devices.Prelude.{Bool, true, false}
use microcontroller_devices.Prelude.{Option, none, some, List, [], ◌∷◌}
use microcontroller_devices.Prelude.Int.{pos}
use microcontroller_devices.Device.Controls.{
  ControlsConfig, Controls, app_control_set_setpoint, app_control_set_mode, ControlWrite,
  set_setpoint, set_running, set_mode, apply_write, apply_writes,
}
use microcontroller_devices.Modbus.Server.{enotsup, eacces, Reply, ok, err, holding_reg_wr, coil_wr}

-- A write request: an address and a value.
pub data Request : Type 0 where
  write_reg : ℕ → ℕ → Request
  write_coil : ℕ → Bool → Request

unfoldable pub write : ControlsConfig → Controls → Request → Reply (Unit {0}) × Controls
write c s (write_reg addr reg) = holding_reg_wr c s addr reg
write c s (write_coil addr state) = coil_wr s addr state

unfoldable pub writes : ControlsConfig → Controls → List Request → Controls
writes c s [] = s
writes c s (r ∷ rs) = writes c (write c s r).1 rs

-- The control that a request names, if there is one.
abbrev pub target : Request → Option ControlWrite
target (write_reg addr reg) =
    if addr == 0
    then some (set_setpoint (pos reg))
    else (if addr == 1 then some (set_mode (pos reg)) else none)
target (write_coil addr state) = if addr == 0 then some (set_running state) else none

-- A write of a control that exists is carried out where local writes are allowed, and refused with
-- -EACCES and no effect where they are not; any other write is -ENOTSUP and has no effect.
pub write_cases :
    (c : ControlsConfig) (s : Controls) (r : Request)
    → write c s r ≡ elim (target r) [
      | none ↦ (err enotsup, s)
      | some w ↦ if s.local_writes then (ok tt, apply_write c s w) else (err eacces, s)
    ]
unfolding write holding_reg_wr coil_wr apply_write
write_cases c s (write_reg addr reg) = ground arith
write_cases c s (write_coil addr state) = ground arith

-- While local writes are not allowed, no sequence of Modbus writes changes the controls.
pub writes_refused :
    (c : ControlsConfig) (s : Controls) (rs : List Request)
    → s.local_writes ≡ false
    → writes c s rs ≡ s
unfolding writes
writes_refused c s [] h = refl
writes_refused c s (r ∷ rs) h =
    let same : (write c s r).1 ≡ s = kept (target r) (write_cases c s r) in
    rw same (writes_refused c s rs h)
  where
    kept :
        (o : Option ControlWrite)
        → write c s r ≡ elim o [
          | none ↦ (err enotsup, s)
          | some w ↦ if s.local_writes then (ok tt, apply_write c s w) else (err eacces, s)
        ]
        → (write c s r).1 ≡ s
    kept none e = ap (λ p. p.1) e
    kept (some w) e = let q : write c s r ≡ (err eacces, s) = e ∙ rw h refl in ap (λ p. p.1) q

-- The controls that a sequence of requests names.
abbrev pub targets : List Request → List ControlWrite
targets [] = []
targets (r ∷ rs) = elim (target r) [ none ↦ targets rs | some w ↦ w ∷ targets rs ]

keeps_local_writes :
    (c : ControlsConfig) (s : Controls) (r : Request)
    → (write c s r).1.local_writes ≡ s.local_writes
unfolding write holding_reg_wr coil_wr app_control_set_setpoint app_control_set_mode
keeps_local_writes c s (write_reg addr reg) = ground arith
keeps_local_writes c s (write_coil addr state) = ground arith

-- While local writes are allowed, a sequence of Modbus writes is the calls of the control
-- setters that the requests with a valid address name, in their order.
pub writes-apply_writes :
    (c : ControlsConfig) (s : Controls) (rs : List Request)
    → s.local_writes ≡ true
    → writes c s rs ≡ apply_writes c s (targets rs)
unfolding writes apply_writes
writes-apply_writes c s [] h = refl
writes-apply_writes c s (r ∷ rs) h =
    writes-apply_writes c (write c s r).1 rs (keeps_local_writes c s r ∙ h)
    ∙ step (target r) (write_cases c s r)
  where
    step :
        (o : Option ControlWrite)
        → write c s r ≡ elim o [
          | none ↦ (err enotsup, s)
          | some w ↦ if s.local_writes then (ok tt, apply_write c s w) else (err eacces, s)
        ]
        → apply_writes c (write c s r).1 (targets rs)
          ≡ apply_writes c s (elim o [ none ↦ targets rs | some w ↦ w ∷ targets rs ])
    step none e = ap (λ p. apply_writes c p.1 (targets rs)) e
    step (some w) e =
        let q : write c s r ≡ (ok tt, apply_write c s w) = e ∙ rw h refl in
        ap (λ p. apply_writes c p.1 (targets rs)) q
