-- ===== src/Device/SimSwitch.antt =====
-- lib/common/sim_switch.c and sim_switch.h: the switch simulation behind the SNMP agent.
pub mod Flap
pub mod Links
pub mod Fault
pub mod Invariant
use microcontroller_devices.Prelude.{ℕ, zero, suc, ◌+◌, ◌-◌, ◌*◌, ◌/◌, ◌%◌, ◌^◌}
use microcontroller_devices.Prelude.{ltb, ◌==◌, if◌then◌else◌}
use microcontroller_devices.Prelude.{Bool, true, false, ◌&&◌, not}
use microcontroller_devices.Prelude.{none, some, List, [], ◌∷◌}
use microcontroller_devices.Prelude.{length}
use microcontroller_devices.Prelude.{get_elem?, get_or}
use microcontroller_devices.Prelude.Text.{codes}
use mathlib.Core.List.{map}

-- `enum sim_if_status`; the values are 1 and 2.
pub data SimIfStatus : Type 0 where
  up down : SimIfStatus

unfoldable pub status_value : SimIfStatus → ℕ
status_value up = 1
status_value down = 2

abbrev pub is_up : SimIfStatus → Bool
is_up up = true
is_up down = false

-- `enum sim_if_counter`.
pub data SimIfCounter : Type 0 where
  in_octets in_ucast_pkts out_octets out_ucast_pkts : SimIfCounter

-- `struct sim_if`, its counters as four fields.
pub record SimIf : Type 0 where
  pub descr : List ℕ
  pub admin : SimIfStatus
  pub oper : SimIfStatus
  pub octets_in : ℕ
  pub pkts_in : ℕ
  pub octets_out : ℕ
  pub pkts_out : ℕ
  pub base_rate : ℕ

-- The module's static state. `ifs` holds the entries below `if_count` of the array.
pub record SimSwitch : Type 0 where
  pub ifs : List SimIf
  pub flap_idx : ℕ
  pub flap_period : ℕ
  pub step_n : ℕ

-- The two Kconfig values that the simulation reads.
pub record SwitchConfig : Type 0 where
  pub if_count : ℕ
  pub flap_period_steps : ℕ

abbrev pub sim_switch_max_if : ℕ
sim_switch_max_if = 8

abbrev pub if_speed_bps : ℕ
if_speed_bps = 1000000000

abbrev pub if_mtu : ℕ
if_mtu = 1500

abbrev pub if_type_ethernet : ℕ
if_type_ethernet = 6

unfoldable pub clamp_count : SwitchConfig → ℕ
clamp_count c =
    let n = c.if_count in
    let low = if ltb n 1 then 1 else n in
    if ltb sim_switch_max_if low then sim_switch_max_if else low

abbrev names : List (List ℕ)
names =
    codes "GigabitEthernet0/1"
    ∷ codes "GigabitEthernet0/2"
    ∷ codes "GigabitEthernet0/3"
    ∷ codes "GigabitEthernet0/4"
    ∷ codes "GigabitEthernet0/5"
    ∷ codes "GigabitEthernet0/6"
    ∷ codes "GigabitEthernet0/7"
    ∷ codes "Uplink0/0"
    ∷ []

-- One round of the loop that initialises `ifs[i]`.
abbrev pub init_if : ℕ → SimIf
init_if i = record {
  descr = get_or names i [];
  admin = up;
  oper = up;
  octets_in = 0;
  pkts_in = 0;
  octets_out = 0;
  pkts_out = 0;
  base_rate = 800 + i * 250;
}

-- `for (i = ...; i < if_count; i++)`, with the rounds left.
unfoldable pub init_ifs : ℕ → ℕ → List SimIf
init_ifs zero i = []
init_ifs (suc k) i = init_if i ∷ init_ifs k (i + 1)

unfoldable pub data_source_init : SwitchConfig → SimSwitch
unfolding init_ifs clamp_count
data_source_init c =
    let n = clamp_count c in
    record {
      ifs = init_ifs n 0;
      flap_idx = if ltb 2 n then n - 2 else 0;
      flap_period = c.flap_period_steps;
      step_n = 0;
    }

unfoldable pub toggle : SimIf → SimIf
toggle f = record f { oper = if is_up f.oper then down else up }

-- A change of one array entry.
unfoldable pub modify : ℕ → (SimIf → SimIf) → List SimIf → List SimIf
modify i g [] = []
modify zero g (x ∷ xs) = g x ∷ xs
modify (suc i) g (x ∷ xs) = x ∷ modify i g xs

-- One round of the loop that advances the counters; uint32_t arithmetic wraps.
unfoldable pub advance : ℕ → SimIf → SimIf
advance n f =
    let rate = (f.base_rate + n % 64 * 4) % 2 ^ 32 in
    let pkts = (1 + rate / 512) % 2 ^ 32 in
    if is_up f.oper
    then record f {
      octets_in = (f.octets_in + rate) % 2 ^ 32;
      pkts_in = (f.pkts_in + pkts) % 2 ^ 32;
      octets_out = (f.octets_out + (rate + rate / 8)) % 2 ^ 32;
      pkts_out = (f.pkts_out + pkts) % 2 ^ 32;
    }
    else f

unfoldable pub sim_step : SimSwitch → SimSwitch
unfolding toggle modify advance
sim_step s =
    let n = (s.step_n + 1) % 2 ^ 32 in
    let flapped =
      if ltb 0 s.flap_period && (ltb 1 (length s.ifs) && n % s.flap_period == 0)
      then modify s.flap_idx toggle s.ifs
      else s.ifs in
    record s { ifs = map (advance n) flapped; step_n = n }

-- The typed accessors: the interface at `idx`, or the value out of range.
unfoldable pub if_field {ℓ} : {A : Type ℓ} → SimSwitch → ℕ → (SimIf → A) → A → A
if_field s idx g d = elim (get_elem? s.ifs idx) [ none ↦ d | some f ↦ g f ]

unfoldable pub sim_switch_if_count : SimSwitch → ℕ
sim_switch_if_count s = length s.ifs

pub sim_switch_if_descr : SimSwitch → ℕ → List ℕ
sim_switch_if_descr s idx = if_field s idx (λ f. f.descr) (codes "?")

unfoldable pub sim_switch_if_type : SimSwitch → ℕ → ℕ
sim_switch_if_type s idx = if ltb idx (length s.ifs) then if_type_ethernet else 0

unfoldable pub sim_switch_if_mtu : SimSwitch → ℕ → ℕ
sim_switch_if_mtu s idx = if ltb idx (length s.ifs) then if_mtu else 0

unfoldable pub sim_switch_if_speed : SimSwitch → ℕ → ℕ
sim_switch_if_speed s idx = if ltb idx (length s.ifs) then if_speed_bps else 0

pub sim_switch_if_admin_status : SimSwitch → ℕ → SimIfStatus
sim_switch_if_admin_status s idx = if_field s idx (λ f. f.admin) down

pub sim_switch_if_oper_status : SimSwitch → ℕ → SimIfStatus
sim_switch_if_oper_status s idx = if_field s idx (λ f. f.oper) down

pub counter_of : SimIfCounter → SimIf → ℕ
counter_of in_octets f = f.octets_in
counter_of in_ucast_pkts f = f.pkts_in
counter_of out_octets f = f.octets_out
counter_of out_ucast_pkts f = f.pkts_out

unfoldable pub sim_switch_if_counter : SimSwitch → ℕ → SimIfCounter → ℕ
sim_switch_if_counter s idx c = if_field s idx (counter_of c) 0

-- `admin == SIM_IF_UP && oper != SIM_IF_UP` for some interface.
unfoldable pub any_down : List SimIf → Bool
any_down [] = false
any_down (f ∷ fs) = if is_up f.admin && not (is_up f.oper) then true else any_down fs

pub app_sim_fault : SimSwitch → Bool
app_sim_fault s = any_down s.ifs
