-- ===== src/Ztp/Apply/Staging.antt =====
-- `ztp_apply_manifest` and what it calls.
use microcontroller_devices.Prelude.{ℕ, zero, suc}
use microcontroller_devices.Prelude.{◌==◌, if◌then◌else◌}
use microcontroller_devices.Prelude.{Bool, true, false, ◌&&◌, ◌||◌}
use microcontroller_devices.Prelude.{Option, none, some, List, [], ◌∷◌, ◌++◌}
use microcontroller_devices.Prelude.{length}
use microcontroller_devices.Prelude.Text.{codes}
use microcontroller_devices.Ztp.Errors.{eproto, enodata, enotsup, enetunreach, Rc}
use microcontroller_devices.Ztp.Manifest.{
  ztp_slice_eq, Module, clear, sealed, type_of, Header, ztp_manifest_header, Next, module_found,
  at_end, malformed, ztp_manifest_next_module,
}
use microcontroller_devices.Ztp.Apply.Wifi.{Creds, WifiState, wifi_reset, wifi_stage}
use microcontroller_devices.Ztp.Apply.C8y.{ProvC8y, c8y_reset, c8y_stage}

-- What the file calls: `base64_decode` into a buffer of that size, `ztp_open` into one, the trial
-- of the credentials, Zephyr's store of credentials and `prov_c8y_store`.
pub record Platform : Type 0 where
  pub base64_decode : ℕ → List ℕ → Option (List ℕ)
  pub ztp_open : (eph nonce ct : List ℕ) → ℕ → Rc × List ℕ
  pub try_credentials : Creds → Bool
  pub set_personal : Creds → Rc
  pub c8y_store : ProvC8y → Rc

-- The calls of a commit that change what the device keeps, and the trial of a network.
pub data Effect : Type 0 where
  tried : Creds → Effect
  deleted_all : Effect
  wifi_set : Creds → Effect
  c8y_set : ProvC8y → Effect

-- The static objects of the file, without its scratch buffers.
pub record Staged : Type 0 where
  pub wifi : WifiState
  pub c8y : ProvC8y

abbrev pub reset_all : Staged
reset_all = record { wifi = wifi_reset; c8y = c8y_reset }

-- The table `appliers`.
pub data Applier : Type 0 where
  wifi_v2 : Applier
  c8y_v2 : Applier

unfoldable pub find_applier : List ℕ → Option Applier
find_applier type =
    if ztp_slice_eq type (codes "wifi.v2")
    then some wifi_v2
    else if ztp_slice_eq type (codes "c8y.v2")
    then some c8y_v2
    else none

abbrev pub payload_max : ℕ
payload_max = 1024

abbrev pub ct_max : ℕ
ct_max = 1040

-- The array `staged`; `any` is that one of them is set.
pub record Flags : Type 0 where
  pub wifi_staged : Bool
  pub c8y_staged : Bool

abbrev pub no_flags : Flags
no_flags = record { wifi_staged = false; c8y_staged = false }

unfoldable pub mark : Applier → Flags → Flags
mark wifi_v2 f = record f { wifi_staged = true }
mark c8y_v2 f = record f { c8y_staged = true }

abbrev pub any : Flags → Bool
any f = f.wifi_staged || f.c8y_staged

module _ (p : Platform) where
  abbrev pub exact : ℕ → Option (List ℕ) → Option (List ℕ)
  exact want none = none
  exact want (some b) = if length b == want then some b else none

  unfoldable pub b64_exact : List ℕ → ℕ → Option (List ℕ)
  b64_exact s want = exact want (p.base64_decode want s)

  abbrev pub opened : Option (List ℕ) → Option (List ℕ) → Option (List ℕ) → Rc × List ℕ
  opened (some eph) (some iv) (some ct) = p.ztp_open eph iv ct payload_max
  opened none _ _ = (some eproto, [])
  opened (some _) none _ = (some eproto, [])
  opened (some _) (some _) none = (some eproto, [])

  -- The payload counts with a return code of 0 only.
  unfoldable pub module_payload : Module → Rc × List ℕ
  module_payload (clear type payload) = elim (p.base64_decode payload_max payload) [
    | none ↦ (some eproto, [])
    | some b ↦ (none, b)
  ]
  module_payload (sealed type format eph nonce ciphertext) =
      if ztp_slice_eq format (codes "raw")
      then opened (b64_exact eph 65) (b64_exact nonce 12) (p.base64_decode ct_max ciphertext)
      else (some enotsup, [])

  unfoldable pub stage : Applier → List ℕ → Staged → Rc × Staged
  stage wifi_v2 payload s = let (rc, w) = wifi_stage payload in (rc, record s { wifi = w })
  stage c8y_v2 payload s = let (rc, c) = c8y_stage payload in (rc, record s { c8y = c })

  -- A module that has an applier.
  unfoldable pub stage_module : Applier → Module → Staged → Rc × Staged
  stage_module a m s =
      let (rc, payload) = module_payload m in
      elim rc [ none ↦ stage a payload s | some e ↦ (some e, s) ]

  abbrev pub Outcome : Type 0
  Outcome = Rc × Staged × Flags

  -- A module that was staged, or not, in front of the rest of the loop.
  abbrev pub staged_or_reset : Applier → Flags → (Staged → Flags → Outcome) → Rc × Staged → Outcome
  staged_or_reset a f go (none, s) = go s (mark a f)
  staged_or_reset a f go (some e, s) = (some e, reset_all, f)

  -- A module without an applier is skipped.
  abbrev pub stage_found :
      Option Applier → Module → Staged → Flags → (Staged → Flags → Outcome) → Outcome
  stage_found none m s f go = go s f
  stage_found (some a) m s f go = staged_or_reset a f go (stage_module a m s)

  abbrev pub stage_next : Next → (List ℕ → Staged → Flags → Outcome) → Staged → Flags → Outcome
  stage_next at_end go s f = (none, s, f)
  stage_next malformed go s f = (some eproto, reset_all, f)
  stage_next (module_found m rest) go s f = stage_found (find_applier (type_of m)) m s f (go rest)

  -- Phase 1, at most `fuel` modules.
  unfoldable pub stage_loop : ℕ → List ℕ → Staged → Flags → Outcome
  stage_loop zero cur s f = (none, s, f)
  stage_loop (suc fuel) cur s f = stage_next (ztp_manifest_next_module cur) (stage_loop fuel) s f

  -- A commit: the effects it had, in their order.
  unfoldable pub wifi_commit : WifiState → Rc × List Effect
  wifi_commit w =
      if p.try_credentials w.best
      then (p.set_personal w.best, tried w.best ∷ deleted_all ∷ wifi_set w.best ∷ [])
      else (some enetunreach, tried w.best ∷ [])

  unfoldable pub c8y_commit : ProvC8y → Rc × List Effect
  c8y_commit c = (p.c8y_store c, c8y_set c ∷ [])

  abbrev pub commit_if : Bool → Rc × List Effect → Rc × List Effect
  commit_if true r = r
  commit_if false r = (none, [])

  -- The next commit runs if this one succeeded.
  abbrev pub and_then : Rc × List Effect → Rc × List Effect → Rc × List Effect
  and_then (none, fx) (rc, gx) = (rc, fx ++ gx)
  and_then (some e, fx) later = (some e, fx)

  -- Phase 2, in the order of the table.
  unfoldable pub commit_all : Staged → Flags → Rc × List Effect
  commit_all s f =
      and_then (commit_if f.wifi_staged (wifi_commit s.wifi))
        (commit_if f.c8y_staged (c8y_commit s.c8y))

  abbrev pub header_ok : Header → List ℕ → Bool
  header_ok h device_id = h.version_ok && ztp_slice_eq h.device_id device_id

  -- What is returned, what is left staged and the effects.
  abbrev pub Applied : Type 0
  Applied = Rc × Staged × List Effect

  abbrev pub commit_staged : Outcome → Applied
  commit_staged (some e, s, f) = (some e, s, [])
  commit_staged (none, s, f) =
      if any f
      then (let (rc, fx) = commit_all s f in (rc, reset_all, fx))
      else (some enodata, s, [])

  -- A manifest of `n` bytes has at most `n` modules.
  unfoldable pub ztp_apply_manifest : List ℕ → List ℕ → Staged → Applied
  ztp_apply_manifest manifest device_id s =
      if header_ok (ztp_manifest_header manifest) device_id
      then commit_staged (stage_loop (length manifest) manifest reset_all no_flags)
      else (some eproto, s, [])
