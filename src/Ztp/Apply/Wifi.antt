-- ===== src/Ztp/Apply/Wifi.antt =====
-- The `wifi.v2` module: the network that is kept.
use microcontroller_devices.Prelude.{ℕ, ◌+◌, ◌-◌, ◌*◌}
use microcontroller_devices.Prelude.{ltb, ◌==◌, if◌then◌else◌}
use microcontroller_devices.Prelude.{Bool, true, false, ◌&&◌, ◌||◌, not}
use microcontroller_devices.Prelude.{Option, none, some, List, [], ◌∷◌}
use microcontroller_devices.Prelude.{length, take, drop}
use microcontroller_devices.Prelude.{get_or}
use microcontroller_devices.Prelude.Int.{ℤ, pos, ltb_ℤ, sub_ℕ}
use microcontroller_devices.Prelude.Text.{codes}
use microcontroller_devices.Ztp.Errors.{einval, enodata, Rc}
use microcontroller_devices.Ztp.Manifest.{Kv, ztp_slice_eq}
use microcontroller_devices.Ztp.Apply.Ini.{ini_walk, copy_val}

-- `struct app_wifi_creds`: the bytes that its lengths count.
pub record Creds : Type 0 where
  pub ssid : List ℕ
  pub psk : List ℕ

abbrev pub no_creds : Creds
no_creds = record { ssid = []; psk = [] }

-- `struct wifi_candidate`.
pub record Candidate : Type 0 where
  pub creds : Creds
  pub priority : ℤ
  pub open_network : Bool
  pub seen_ssid : Bool

abbrev pub no_candidate : Candidate
no_candidate = record {
  creds = no_creds;
  priority = pos 0;
  open_network = false;
  seen_ssid = false;
}

-- The object `wifi`.
pub record WifiState : Type 0 where
  pub best : Creds
  pub best_priority : ℤ
  pub have : Bool
  pub cur : Candidate
  pub in_network : Bool

abbrev pub wifi_reset : WifiState
wifi_reset = record {
  best = no_creds;
  best_priority = pos 0;
  have = false;
  cur = no_candidate;
  in_network = false;
}

abbrev pub closed_creds : Candidate → Creds
closed_creds c = if c.open_network then record c.creds { psk = [] } else c.creds

unfoldable pub wifi_close_section : WifiState → WifiState
wifi_close_section w =
    let c = w.cur in
    let w' =
      if w.in_network && c.seen_ssid && (not w.have || ltb_ℤ w.best_priority c.priority)
      then record w { best = closed_creds c; best_priority = c.priority; have = true }
      else w in
    record w' { cur = no_candidate; in_network = false }

-- The digits of a priority, behind those that made up `p`.
unfoldable pub scan_priority : ℕ → List ℕ → Option ℕ
scan_priority p [] = some p
scan_priority p (c ∷ s) =
    let rest = scan_priority (p * 10 + (c - 48)) s in if ltb c 48 || ltb 57 c then none else rest

-- At most the first six characters are read, a sign included.
unfoldable pub priority_of : List ℕ → Option ℤ
priority_of v =
    let neg = not (length v == 0) && get_or v 0 0 == 45 in
    elim (scan_priority 0 (if neg then drop 1 (take 6 v) else take 6 v)) [
      | none ↦ none
      | some p ↦ some (if neg then sub_ℕ 0 p else pos p)
    ]

abbrev pub with_cur : WifiState → Candidate → WifiState
with_cur w c = record w { cur = c }

-- The callback writes what it has read, or fails and writes nothing.
abbrev pub written : {A : Type 0} → WifiState → Option A → (A → Candidate) → Rc × WifiState
written w none f = (some einval, w)
written w (some a) f = (none, with_cur w (f a))

unfoldable pub network_kv : WifiState → Kv → Rc × WifiState
network_kv w kv =
    let c = w.cur in
    if ztp_slice_eq kv.key (codes "ssid")
    then written w (if length kv.val == 0 then none else copy_val 33 kv.val)
        (λ v. record c { creds = record c.creds { ssid = v }; seen_ssid = true })
    else if ztp_slice_eq kv.key (codes "password")
    then written w (copy_val 65 kv.val) (λ v. record c { creds = record c.creds { psk = v } })
    else if ztp_slice_eq kv.key (codes "key_mgmt")
    then (none, with_cur w (record c { open_network = ztp_slice_eq kv.val (codes "NONE") }))
    else if ztp_slice_eq kv.key (codes "priority")
    then written w (priority_of kv.val) (λ p. record c { priority = p })
    else (none, w)

unfoldable pub wifi_ini : WifiState → List ℕ → Option Kv → Rc × WifiState
wifi_ini w section none =
    (none, record (wifi_close_section w) { in_network = ztp_slice_eq section (codes "network") })
wifi_ini w section (some kv) = if w.in_network then network_kv w kv else (none, w)

unfoldable pub wifi_stage : List ℕ → Rc × WifiState
wifi_stage p =
    let (rc, w) = ini_walk wifi_ini p wifi_reset in
    let w = wifi_close_section w in
    elim rc [ none ↦ (if w.have then none else some enodata, w) | some e ↦ (some e, w) ]
