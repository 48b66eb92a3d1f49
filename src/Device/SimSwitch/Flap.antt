-- ===== src/Device/SimSwitch/Flap.antt =====
-- Runs of `sim_step` of lib/common/sim_switch.c, and the sizes of its lists.
use microcontroller_devices.Prelude.{ℕ, zero, suc, ◌+◌, ◌%◌, ◌^◌}
use microcontroller_devices.Prelude.{◌≡◌, refl, ap, arith}
use microcontroller_devices.Prelude.{List, [], ◌∷◌}
use microcontroller_devices.Prelude.{length}
use mathlib.Core.List.{map}
use microcontroller_devices.Device.SimSwitch.{
  SimSwitch, SimIf, SwitchConfig, clamp_count, init_ifs, data_source_init, toggle, modify, advance,
  sim_step,
}

pub length-map : (g : SimIf → SimIf) (xs : List SimIf) → length (map g xs) ≡ length xs
length-map g [] = refl
length-map g (x ∷ xs) = ap suc (length-map g xs)

pub length-modify :
    (i : ℕ) (g : SimIf → SimIf) (xs : List SimIf) → length (modify i g xs) ≡ length xs
unfolding modify
length-modify i g [] = refl
length-modify zero g (x ∷ xs) = refl
length-modify (suc i) g (x ∷ xs) = ap suc (length-modify i g xs)

length-init_ifs : (k i : ℕ) → length (init_ifs k i) ≡ k
unfolding init_ifs
length-init_ifs zero i = refl
length-init_ifs (suc k) i = ap suc (length-init_ifs k (i + 1))

pub length-data_source_init : (c : SwitchConfig) → length (data_source_init c).ifs ≡ clamp_count c
unfolding data_source_init
length-data_source_init c = length-init_ifs (clamp_count c) 0

-- The number of interfaces never changes.
pub length-sim_step : (s : SimSwitch) → length (sim_step s).ifs ≡ length s.ifs
unfolding sim_step
length-sim_step s = ground (
  arith,
  length-map (advance ((s.step_n + 1) % 2 ^ 32)) (modify s.flap_idx toggle s.ifs),
  length-map (advance ((s.step_n + 1) % 2 ^ 32)) s.ifs,
  length-modify s.flap_idx toggle s.ifs,
)

-- `n` steps of the work item.
unfoldable pub steps : ℕ → SimSwitch → SimSwitch
steps zero s = s
steps (suc n) s = sim_step (steps n s)
