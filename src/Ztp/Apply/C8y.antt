-- ===== src/Ztp/Apply/C8y.antt =====
-- The `c8y.v2` module: the Cumulocity settings.
use microcontroller_devices.Prelude.{ℕ}
use microcontroller_devices.Prelude.{◌==◌, if◌then◌else◌}
use microcontroller_devices.Prelude.{Bool}
use microcontroller_devices.Prelude.{Option, none, some, List, []}
use microcontroller_devices.Prelude.{get_or}
use microcontroller_devices.Prelude.Text.{codes}
use microcontroller_devices.Ztp.Errors.{e2big, enodata, Rc}
use microcontroller_devices.Ztp.Manifest.{Kv, ztp_slice_eq}
use microcontroller_devices.Ztp.Apply.Ini.{ini_walk, copy_val}

-- `struct prov_c8y`: the bytes of each field in front of the NUL that `copy_val` writes.
pub record ProvC8y : Type 0 where
  pub url : List ℕ
  pub tenant : List ℕ
  pub external_id : List ℕ
  pub otp : List ℕ

abbrev pub c8y_reset : ProvC8y
c8y_reset = record { url = []; tenant = []; external_id = []; otp = [] }

abbrev pub copied : ProvC8y → Option (List ℕ) → (List ℕ → ProvC8y) → Rc × ProvC8y
copied c none f = (some e2big, c)
copied c (some v) f = (none, f v)

unfoldable pub c8y_kv : ProvC8y → Kv → Rc × ProvC8y
c8y_kv c kv =
    if ztp_slice_eq kv.key (codes "url")
    then copied c (copy_val 128 kv.val) (λ v. record c { url = v })
    else if ztp_slice_eq kv.key (codes "tenant")
    then copied c (copy_val 32 kv.val) (λ v. record c { tenant = v })
    else if ztp_slice_eq kv.key (codes "external_id")
    then copied c (copy_val 64 kv.val) (λ v. record c { external_id = v })
    else if ztp_slice_eq kv.key (codes "one_time_password")
    then copied c (copy_val 65 kv.val) (λ v. record c { otp = v })
    else (none, c)

unfoldable pub c8y_ini : ProvC8y → List ℕ → Option Kv → Rc × ProvC8y
c8y_ini c section none = (none, c)
c8y_ini c section (some kv) = if ztp_slice_eq section (codes "c8y") then c8y_kv c kv else (none, c)

-- `url[0] == '\0'`.
abbrev pub empty_string : List ℕ → Bool
empty_string s = get_or s 0 0 == 0

unfoldable pub c8y_stage : List ℕ → Rc × ProvC8y
c8y_stage p =
    let (rc, c) = ini_walk c8y_ini p c8y_reset in
    elim rc [
      | none ↦ (if empty_string c.url then some enodata else none, c)
      | some e ↦ (some e, c8y_reset)
    ]
