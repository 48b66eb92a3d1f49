-- ===== src/Device/SimSwitch/Invariant.antt =====
-- The invariant of the switch simulation.
use microcontroller_devices.Prelude.{ℕ, zero, suc, ◌+◌, ◌%◌, ◌^◌, ◌≤◌, ◌<◌}
use microcontroller_devices.Prelude.{if◌then◌else◌}
use microcontroller_devices.Prelude.{◌≡◌, arith}
use microcontroller_devices.Prelude.{Bool, true, false}
use microcontroller_devices.Prelude.{none, some, List, [], ◌∷◌}
use microcontroller_devices.Prelude.{length, All}
use microcontroller_devices.Prelude.{get_elem?}
use mathlib.Core.List.{map}
use microcontroller_devices.Device.SimSwitch.{
  SimSwitch, SimIf, up, SwitchConfig, clamp_count, init_if, init_ifs, data_source_init, toggle,
  modify, advance, sim_step, SimIfCounter, counter_of, if_field, sim_switch_if_counter, in_octets,
  in_ucast_pkts, out_octets, out_ucast_pkts,
}
use microcontroller_devices.Device.SimSwitch.Flap.{length-sim_step, length-data_source_init, steps}

-- Every counter is a uint32_t, and the nominal rate is what `data_source_init` gave it at most.
pub record IsIf (f : SimIf) : Type 0 where
  pub octets_in : f.octets_in < 2 ^ 32
  pub pkts_in : f.pkts_in < 2 ^ 32
  pub octets_out : f.octets_out < 2 ^ 32
  pub pkts_out : f.pkts_out < 2 ^ 32
  pub base_rate : f.base_rate < 2 ^ 16
  pub admin : f.admin ≡ up

pub record IsValid (s : SimSwitch) : Type 0 where
  pub interfaces : All IsIf s.ifs
  pub some_if : 1 ≤ length s.ifs
  pub count_le : length s.ifs ≤ 8
  pub flap_in : s.flap_idx < length s.ifs
  pub step_lt : s.step_n < 2 ^ 32

init_if-IsIf : (i : ℕ) → i < 8 → IsIf (init_if i)
init_if-IsIf i h = ground arith

init_ifs-IsIf : (k i : ℕ) → i + k ≤ 8 → All IsIf (init_ifs k i)
unfolding init_ifs
init_ifs-IsIf zero i h = tt
init_ifs-IsIf (suc k) i h = (init_if-IsIf i (omega arith), init_ifs-IsIf k (i + 1) (omega arith))

toggle-IsIf : (f : SimIf) → IsIf f → IsIf (toggle f)
unfolding toggle
toggle-IsIf f h = ground arith

advance-IsIf : (n : ℕ) (f : SimIf) → IsIf f → IsIf (advance n f)
unfolding advance
advance-IsIf n f h = ground arith

map-advance-IsIf : (n : ℕ) (fs : List SimIf) → All IsIf fs → All IsIf (map (advance n) fs)
map-advance-IsIf n [] h = tt
map-advance-IsIf n (f ∷ fs) h = (advance-IsIf n f h.0, map-advance-IsIf n fs h.1)

modify-IsIf : (i : ℕ) (fs : List SimIf) → All IsIf fs → All IsIf (modify i toggle fs)
unfolding modify
modify-IsIf i [] h = tt
modify-IsIf zero (f ∷ fs) h = (toggle-IsIf f h.0, h.1)
modify-IsIf (suc i) (f ∷ fs) h = (h.0, modify-IsIf i fs h.1)

-- `data_source_init` establishes the invariant at every configuration.
pub data_source_init-IsValid : (c : SwitchConfig) → IsValid (data_source_init c)
data_source_init-IsValid c = record {
  interfaces =
      unfold data_source_init in
      init_ifs-IsIf (clamp_count c) 0 (unfold clamp_count in ground arith);
  some_if = rw (length-data_source_init c) (unfold clamp_count in ground arith);
  count_le = rw (length-data_source_init c) (unfold clamp_count in ground arith);
  flap_in = rw (length-data_source_init c) (unfold data_source_init clamp_count in ground arith);
  step_lt = unfold data_source_init in omega arith;
}

flapped-IsIf :
    (s : SimSwitch) (b : Bool)
    → All IsIf s.ifs
    → All IsIf (if b then modify s.flap_idx toggle s.ifs else s.ifs)
flapped-IsIf s true h = modify-IsIf s.flap_idx s.ifs h
flapped-IsIf s false h = h

-- `sim_step` keeps it.
pub sim_step-IsValid : (s : SimSwitch) → IsValid s → IsValid (sim_step s)
sim_step-IsValid s v = record {
  interfaces =
      unfold sim_step in
      map-advance-IsIf ((s.step_n + 1) % 2 ^ 32) _ (flapped-IsIf s _ v.interfaces);
  some_if = rw (length-sim_step s) v.some_if;
  count_le = rw (length-sim_step s) v.count_le;
  flap_in = rw (length-sim_step s) (unfold sim_step in v.flap_in);
  step_lt = unfold sim_step in omega arith;
}

-- After any number of steps of a simulation started at any configuration there are 1 to 8
-- interfaces, the flapping one among them, all administratively up, with 32-bit counters, 16-bit
-- nominal rates and a 32-bit step number.
pub steps-IsValid : (c : SwitchConfig) (n : ℕ) → IsValid (steps n (data_source_init c))
unfolding steps
steps-IsValid c zero = data_source_init-IsValid c
steps-IsValid c (suc n) = sim_step-IsValid (steps n (data_source_init c)) (steps-IsValid c n)

counter_of-lt : (c : SimIfCounter) (f : SimIf) → IsIf f → counter_of c f < 2 ^ 32
unfolding counter_of
counter_of-lt in_octets f h = h.octets_in
counter_of-lt in_ucast_pkts f h = h.pkts_in
counter_of-lt out_octets f h = h.octets_out
counter_of-lt out_ucast_pkts f h = h.pkts_out

if_counter_lt :
    (fs : List SimIf) (idx : ℕ) (c : SimIfCounter)
    → All IsIf fs
    → (let o = get_elem? fs idx in elim o [ none ↦ 0 | some f ↦ counter_of c f ]) < 2 ^ 32
if_counter_lt [] idx c h = omega arith
if_counter_lt (f ∷ fs) zero c h = counter_of-lt c f h.0
if_counter_lt (f ∷ fs) (suc idx) c h = if_counter_lt fs idx c h.1

-- Every counter that a frontend reads is a uint32_t.
pub sim_switch_if_counter-lt :
    (s : SimSwitch) (idx : ℕ) (c : SimIfCounter)
    → IsValid s
    → sim_switch_if_counter s idx c < 2 ^ 32
unfolding sim_switch_if_counter if_field
sim_switch_if_counter-lt s idx c v = if_counter_lt s.ifs idx c v.interfaces
