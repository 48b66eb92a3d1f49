-- ===== src/Ztp/Apply/Atomic.antt =====
-- What `ztp_apply_manifest` commits, and when.
use microcontroller_devices.Prelude.{ℕ}
use microcontroller_devices.Prelude.{if◌then◌else◌}
use microcontroller_devices.Prelude.{◌≡◌, refl}
use microcontroller_devices.Prelude.{Bool, true, false, ◌||◌}
use microcontroller_devices.Prelude.{none, some, List, [], ◌∷◌}
use microcontroller_devices.Prelude.{length}
use microcontroller_devices.Ztp.Errors.{Errno, enetunreach, eproto, enodata, Rc}
use microcontroller_devices.Ztp.Manifest.{ztp_manifest_header}
use microcontroller_devices.Ztp.Apply.Wifi.{Creds}
use microcontroller_devices.Ztp.Apply.C8y.{ProvC8y}
use microcontroller_devices.Ztp.Apply.Staging.{
  Platform, Effect, tried, deleted_all, wifi_set, c8y_set, Staged, reset_all, Flags, no_flags, any,
  Outcome, stage_loop, wifi_commit, c8y_commit, commit_if, and_then, commit_all, header_ok,
  commit_staged, ztp_apply_manifest,
}

-- The commits that a call can have made, with the code it returns.
pub data Committed (p : Platform) : Rc → List Effect → Type 0 where
  nothing : (e : Errno) → Committed p (some e) []
  not_joined :
      (w : Creds) → p.try_credentials w ≡ false → Committed p (some enetunreach) (tried w ∷ [])
  not_stored :
      (w : Creds) (e : Errno)
      → p.try_credentials w ≡ true
      → p.set_personal w ≡ some e
      → Committed p (some e) (tried w ∷ deleted_all ∷ wifi_set w ∷ [])
  wifi_only :
      (w : Creds)
      → p.try_credentials w ≡ true
      → p.set_personal w ≡ none
      → Committed p none (tried w ∷ deleted_all ∷ wifi_set w ∷ [])
  wifi_and_c8y :
      (w : Creds) (c : ProvC8y)
      → p.try_credentials w ≡ true
      → p.set_personal w ≡ none
      → Committed p (p.c8y_store c) (tried w ∷ deleted_all ∷ wifi_set w ∷ c8y_set c ∷ [])
  c8y_only : (c : ProvC8y) → Committed p (p.c8y_store c) (c8y_set c ∷ [])

module _ (p : Platform) where
  -- The commits, by what the trial and the store of the credentials answer.
  commits :
      (a b joined : Bool) (stored : Rc) (w : Creds) (c : ProvC8y)
      → p.try_credentials w ≡ joined
      → p.set_personal w ≡ stored
      → (a || b) ≡ true
      → let wifi : Rc × List Effect =
          if joined
          then (stored, tried w ∷ deleted_all ∷ wifi_set w ∷ [])
          else (some enetunreach, tried w ∷ []) in
        let (rc, fx) =
          and_then p (commit_if p a wifi) (commit_if p b (p.c8y_store c, c8y_set c ∷ [])) in
        Committed p rc fx
  commits true b false stored w c e d h = not_joined w e
  commits true b true (some x) w c e d h = not_stored w x e d
  commits true false true none w c e d h = wifi_only w e d
  commits true true true none w c e d h = wifi_and_c8y w c e d
  commits false true joined stored w c e d h = c8y_only c
  commits false false joined stored w c e d h = cc

  commit_all-Committed :
      (s : Staged) (f : Flags)
      → any f ≡ true
      → Committed p (commit_all p s f).0 (commit_all p s f).1
  unfolding commit_all wifi_commit c8y_commit
  commit_all-Committed s f h =
      commits f.wifi_staged f.c8y_staged (p.try_credentials s.wifi.best)
        (p.set_personal s.wifi.best) s.wifi.best s.c8y refl refl h

  commit_staged-Committed :
      (o : Outcome p) → let (rc, s, fx) = commit_staged p o in Committed p rc fx
  commit_staged-Committed (some e, s, f) = nothing e
  commit_staged-Committed (none, s, f) = cases (any f) refl
    where
      cases :
          (b : Bool)
          → any f ≡ b
          → (let (rc, s, fx) : Rc × Staged × List Effect =
                if b
                then (let (rc, fx) = commit_all p s f in (rc, reset_all, fx))
                else (some enodata, s, []) in
              Committed p rc fx)
      cases true e = commit_all-Committed s f e
      cases false e = nothing enodata

  -- Whatever the manifest says, the commits of `ztp_apply_manifest` and its return code are among
  -- six: none with an error; a Wi-Fi trial that failed; Wi-Fi tried and its store refused; Wi-Fi
  -- stored; Wi-Fi stored and then the Cumulocity settings, whose code is returned; or these
  -- settings alone. Credentials are stored only after their network was joined.
  pub ztp_apply_manifest-Committed :
      (manifest device_id : List ℕ) (s : Staged)
      → let (rc, left, fx) = ztp_apply_manifest p manifest device_id s in Committed p rc fx
  unfolding ztp_apply_manifest
  ztp_apply_manifest-Committed manifest device_id s =
      cases (header_ok p (ztp_manifest_header manifest) device_id)
    where
      cases :
          (b : Bool)
          → (let (rc, left, fx) : Rc × Staged × List Effect =
                if b
                then commit_staged p (stage_loop p (length manifest) manifest reset_all no_flags)
                else (some eproto, s, []) in
              Committed p rc fx)
      cases true =
          commit_staged-Committed (stage_loop p (length manifest) manifest reset_all no_flags)
      cases false = nothing eproto
