-- ===== src/Device/SimSwitch/Links.antt =====
-- Which links of the switch simulation are up after a number of steps.
use microcontroller_devices.Prelude.{ℕ, zero, suc, ◌+◌, ◌/◌, ◌%◌, ◌^◌, ◌<◌}
use microcontroller_devices.Prelude.{ltb, ◌==◌, if◌then◌else◌}
use microcontroller_devices.Prelude.{◌≡◌, ◌≢◌, refl, sym, ap, ◌∙◌, arith}
use microcontroller_devices.Prelude.{Bool, true, false, ◌&&◌}
use microcontroller_devices.Prelude.{Option, none, some, List, [], ◌∷◌}
use microcontroller_devices.Prelude.{length}
use microcontroller_devices.Prelude.{get_elem?}
use mathlib.Core.List.{map}
use native.Mathlib.Nat.{div-zero, zero-div}
use native.Mathlib.Decide.{ℕ_discrete}
use microcontroller_devices.Device.SimSwitch.{
  SimSwitch, SimIf, SimIfStatus, up, down, is_up, SwitchConfig, clamp_count, init_ifs,
  data_source_init, toggle, modify, advance, sim_step, sim_switch_if_oper_status, if_field,
}
use microcontroller_devices.Device.SimSwitch.Flap.{length-sim_step, length-data_source_init, steps}

div_step_same : (k p : ℕ) → 0 < p → (k + 1) % p ≢ 0 → (k + 1) / p ≡ k / p
div_step_same k p h n = grind arith

div_step_up : (k p : ℕ) → 0 < p → (k + 1) % p ≡ 0 → (k + 1) / p ≡ k / p + 1
div_step_up k p h n = grind arith

flip : SimIfStatus → SimIfStatus
flip up = down
flip down = up

abbrev pub oper_at : List SimIf → ℕ → Option SimIfStatus
oper_at [] i = none
oper_at (f ∷ fs) zero = some f.oper
oper_at (f ∷ fs) (suc i) = oper_at fs i

abbrev map_option : (SimIfStatus → SimIfStatus) → Option SimIfStatus → Option SimIfStatus
map_option g none = none
map_option g (some a) = some (g a)

oper-advance : (n : ℕ) (f : SimIf) → (advance n f).oper ≡ f.oper
unfolding advance
oper-advance n f = ground arith

oper_at-map : (n : ℕ) (fs : List SimIf) (i : ℕ) → oper_at (map (advance n) fs) i ≡ oper_at fs i
oper_at-map n [] i = refl
oper_at-map n (f ∷ fs) zero = ap some (oper-advance n f)
oper_at-map n (f ∷ fs) (suc i) = oper_at-map n fs i

oper-toggle : (f : SimIf) → (toggle f).oper ≡ flip f.oper
unfolding toggle flip
oper-toggle f = go f.oper
  where
    go : (s : SimIfStatus) → (if is_up s then down else up) ≡ flip s
    go up = refl
    go down = refl

oper_at-modify :
    (j : ℕ) (fs : List SimIf) (i : ℕ)
    → oper_at (modify j toggle fs) i
      ≡ (if i == j then map_option flip (oper_at fs i) else oper_at fs i)
unfolding modify
oper_at-modify j [] i = ground arith
oper_at-modify zero (f ∷ fs) zero = ap some (oper-toggle f)
oper_at-modify zero (f ∷ fs) (suc i) = ground arith
oper_at-modify (suc j) (f ∷ fs) zero = ground arith
oper_at-modify (suc j) (f ∷ fs) (suc i) = oper_at-modify j fs i ∙ ground arith

oper_at-init_ifs : (k j i : ℕ) → i < k → oper_at (init_ifs k j) i ≡ some up
unfolding init_ifs
oper_at-init_ifs zero j i h = absurd (omega arith)
oper_at-init_ifs (suc k) j zero h = refl
oper_at-init_ifs (suc k) j (suc i) h = oper_at-init_ifs k (j + 1) i (omega arith)

flap_idx-steps : (k : ℕ) (s : SimSwitch) → (steps k s).flap_idx ≡ s.flap_idx
unfolding steps sim_step
flap_idx-steps zero s = refl
flap_idx-steps (suc k) s = flap_idx-steps k s

flap_period-steps : (k : ℕ) (s : SimSwitch) → (steps k s).flap_period ≡ s.flap_period
unfolding steps sim_step
flap_period-steps zero s = refl
flap_period-steps (suc k) s = flap_period-steps k s

pub length-steps : (k : ℕ) (s : SimSwitch) → length (steps k s).ifs ≡ length s.ifs
unfolding steps
length-steps zero s = refl
length-steps (suc k) s = length-sim_step (steps k s) ∙ length-steps k s

step_n-steps : (k : ℕ) (c : SwitchConfig) → k < 2 ^ 32 → (steps k (data_source_init c)).step_n ≡ k
unfolding steps data_source_init sim_step
step_n-steps zero c h = refl
step_n-steps (suc k) c h = omega (arith, step_n-steps k c (omega arith))

-- The state of a link by arithmetic: interface `f` of `count` is down in every other period of `p`
-- steps, and all others are always up. A period of 0 has no steps, and `k / 0` is 0.
abbrev pub link_at : ℕ → ℕ → ℕ → ℕ → ℕ → SimIfStatus
link_at count f p k i = if ltb 1 count && (i == f && k / p % 2 == 1) then down else up

link_step :
    (count f p k i : ℕ) (o : Option SimIfStatus)
    → o ≡ some (link_at count f p k i)
    → (if ltb 0 p && (ltb 1 count && (k + 1) % p == 0)
        then (if i == f then map_option flip o else o)
        else o)
      ≡ some (link_at count f p (suc k) i)
unfolding flip
link_step count f zero k i o h =
    let q : suc k / 0 ≡ k / 0 = div-zero (suc k) ∙ sym (div-zero k) in rw h (ground (arith, q))
link_step count f (suc p) k i o h = elim (ℕ_discrete ((k + 1) % suc p) 0) [
  | yes z ↦
      let q : suc k / suc p ≡ k / suc p + 1 =
        ap (λ n. n / suc p) (add-one' k) ∙ div_step_up k (suc p) (omega arith) z in
      rw h (ground (arith, q, z))
  | no z ↦
      let q : suc k / suc p ≡ k / suc p =
        ap (λ n. n / suc p) (add-one' k) ∙ div_step_same k (suc p) (omega arith) z in
      rw h (ground (arith, q, z))
]
  where
    add-one' : (n : ℕ) → suc n ≡ n + 1
    add-one' n = omega arith

-- One step on one link.
oper_at-sim_step :
    (s : SimSwitch) (i : ℕ)
    → oper_at (sim_step s).ifs i ≡ (
        if ltb 0 s.flap_period
          && (ltb 1 (length s.ifs) && (s.step_n + 1) % 2 ^ 32 % s.flap_period == 0)
        then (if i == s.flap_idx then map_option flip (oper_at s.ifs i) else oper_at s.ifs i)
        else oper_at s.ifs i)
unfolding sim_step
oper_at-sim_step s i =
    oper_at-map _ _ i
    ∙ branch (
        ltb 0 s.flap_period
        && (ltb 1 (length s.ifs) && (s.step_n + 1) % 2 ^ 32 % s.flap_period == 0))
  where
    branch :
        (b : Bool)
        → oper_at (if b then modify s.flap_idx toggle s.ifs else s.ifs) i ≡ (
            if b
            then (if i == s.flap_idx then map_option flip (oper_at s.ifs i) else oper_at s.ifs i)
            else oper_at s.ifs i)
    branch true = oper_at-modify s.flap_idx s.ifs i
    branch false = refl

link_at-zero : (count f p i : ℕ) → up ≡ link_at count f p 0 i
link_at-zero count f p i = let q : 0 / p ≡ 0 = zero-div p in ground (arith, q)

module _ (c : SwitchConfig) where
  abbrev start : SimSwitch
  start = data_source_init c

  abbrev link : ℕ → ℕ → SimIfStatus
  link = link_at (clamp_count c) start.flap_idx c.flap_period_steps

  flap_period-start : start.flap_period ≡ c.flap_period_steps
  unfolding data_source_init
  flap_period-start = refl

  oper_at-start : (i : ℕ) → i < clamp_count c → oper_at start.ifs i ≡ some up
  unfolding data_source_init
  oper_at-start i hi = oper_at-init_ifs (clamp_count c) 0 i hi

  pub oper_at-steps :
      (k i : ℕ) → k < 2 ^ 32 → i < clamp_count c → oper_at (steps k start).ifs i ≡ some (link k i)
  unfolding steps
  oper_at-steps zero i h hi =
      oper_at-start i hi
      ∙ ap some (link_at-zero (clamp_count c) start.flap_idx c.flap_period_steps i)
  oper_at-steps (suc k) i h hi =
      oper_at-sim_step (steps k start) i
      ∙ rw
          (
            flap_period-steps k start ∙ flap_period-start,
            flap_idx-steps k start,
            length-steps k start,
            length-data_source_init c,
            number,
          )
          (link_step (clamp_count c) start.flap_idx c.flap_period_steps k i _
            (oper_at-steps k i (omega arith) hi))
    where
      number : ((steps k start).step_n + 1) % 2 ^ 32 ≡ k + 1
      number = omega (arith, step_n-steps k c (omega arith))

status-oper_at :
    (fs : List SimIf) (i : ℕ) (x : SimIfStatus)
    → oper_at fs i ≡ some x
    → (elim (get_elem? fs i) [ none ↦ down | some f ↦ f.oper ]) ≡ x
status-oper_at [] i x h = cc
status-oper_at (f ∷ fs) zero x h = ground arith
status-oper_at (f ∷ fs) (suc i) x h = status-oper_at fs i x h

-- After `k` steps of a started simulation, `k` below 2^32, an interface that exists is up unless
-- it is the flapping one of at least two and `k` lies in an odd period.
pub sim_switch_if_oper_status-steps :
    (c : SwitchConfig) (k i : ℕ)
    → k < 2 ^ 32
    → i < clamp_count c
    → sim_switch_if_oper_status (steps k (data_source_init c)) i
      ≡ link_at (clamp_count c) (data_source_init c).flap_idx c.flap_period_steps k i
unfolding sim_switch_if_oper_status if_field
sim_switch_if_oper_status-steps c k i h hi =
    status-oper_at (steps k (data_source_init c)).ifs i _ (oper_at-steps c k i h hi)
