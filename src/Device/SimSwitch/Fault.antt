-- ===== src/Device/SimSwitch/Fault.antt =====
-- The fault flag of the switch simulation after a number of steps.
use microcontroller_devices.Prelude.{ℕ, zero, suc, ◌/◌, ◌%◌, ◌^◌, ◌<◌}
use microcontroller_devices.Prelude.{ltb, ◌==◌}
use microcontroller_devices.Prelude.{◌≡◌, refl, ap, ◌∙◌, arith, inl, inr}
use microcontroller_devices.Prelude.{true, false, ◌&&◌, Bool-cases}
use microcontroller_devices.Prelude.{some, List, [], ◌∷◌}
use microcontroller_devices.Prelude.{length, All}
use microcontroller_devices.Device.SimSwitch.{
  SimSwitch, SimIf, up, down, SwitchConfig, clamp_count, data_source_init, any_down, app_sim_fault,
}
use microcontroller_devices.Device.SimSwitch.Flap.{length-data_source_init, steps}
use microcontroller_devices.Device.SimSwitch.Invariant.{
  IsIf, data_source_init-IsValid, steps-IsValid,
}
use microcontroller_devices.Device.SimSwitch.Links.{oper_at, oper_at-steps, length-steps, link_at}

any_down-false :
    (fs : List SimIf) → ((i : ℕ) → i < length fs → oper_at fs i ≡ some up) → any_down fs ≡ false
unfolding any_down
any_down-false [] h = refl
any_down-false (f ∷ fs) h =
    let here : some f.oper ≡ some up = h 0 (omega arith) in
    ground (arith, any_down-false fs (λ i hi. h (suc i) (omega arith)))

any_down-true :
    (fs : List SimIf) (i : ℕ)
    → All (λ f. f.admin ≡ up) fs
    → oper_at fs i ≡ some down
    → any_down fs ≡ true
unfolding any_down
any_down-true [] i a h = cc
any_down-true (f ∷ fs) zero a h = ground arith
any_down-true (f ∷ fs) (suc i) a h = ground (arith, any_down-true fs i a.1 h)

admin_up : (fs : List SimIf) → All IsIf fs → All (λ f. f.admin ≡ up) fs
admin_up [] h = tt
admin_up (f ∷ fs) h = (h.0.admin, admin_up fs h.1)

-- After `k` steps of a started simulation, `k` below 2^32, the fault flag is set exactly in the
-- odd periods of a switch of at least two interfaces.
pub app_sim_fault-steps :
    (c : SwitchConfig) (k : ℕ)
    → k < 2 ^ 32
    → app_sim_fault (steps k (data_source_init c))
      ≡ (ltb 1 (clamp_count c) && k / c.flap_period_steps % 2 == 1)
unfolding app_sim_fault
app_sim_fault-steps c k h =
    elim (Bool-cases (ltb 1 (clamp_count c) && k / c.flap_period_steps % 2 == 1)) [
      | inl odd ↦ rw odd (
          any_down-true s.ifs f (admin_up s.ifs (steps-IsValid c k).interfaces) (
            oper_at-steps c k f h
              (rw length-data_source_init at (data_source_init-IsValid c).flap_in)
            ∙ ap some (ground arith)))
      | inr even ↦ rw even (
          any_down-false s.ifs
            (λ i hi. oper_at-steps c k i h (in_range i hi) ∙ ap some (still even i)))
    ]
  where
    s : SimSwitch
    s = steps k (data_source_init c)

    f : ℕ
    f = (data_source_init c).flap_idx

    in_range : (i : ℕ) → i < length s.ifs → i < clamp_count c
    in_range i hi = omega (arith, length-steps k (data_source_init c), length-data_source_init c)

    still :
        (ltb 1 (clamp_count c) && k / c.flap_period_steps % 2 == 1) ≡ false
        → (i : ℕ) → link_at (clamp_count c) f c.flap_period_steps k i ≡ up
    still e i = ground arith
