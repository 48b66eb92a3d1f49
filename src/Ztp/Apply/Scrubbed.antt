-- ===== src/Ztp/Apply/Scrubbed.antt =====
-- What `ztp_apply_manifest` leaves in the static objects.
use microcontroller_devices.Prelude.{ℕ, zero, suc}
use microcontroller_devices.Prelude.{if◌then◌else◌}
use microcontroller_devices.Prelude.{◌≡◌, refl, arith}
use microcontroller_devices.Prelude.{Bool, true, false}
use microcontroller_devices.Prelude.{Option, none, some, List, []}
use microcontroller_devices.Prelude.{length}
use microcontroller_devices.Ztp.Errors.{eproto, enodata, Rc}
use microcontroller_devices.Ztp.Manifest.{
  Next, module_found, at_end, malformed, type_of, ztp_manifest_next_module, ztp_manifest_header,
}
use microcontroller_devices.Ztp.Apply.Staging.{
  Platform, Effect, Staged, reset_all, Applier, find_applier, stage_module, Flags, no_flags, mark,
  any, Outcome, staged_or_reset, stage_found, stage_next, stage_loop, commit_all, header_ok,
  commit_staged, ztp_apply_manifest, wifi_v2, c8y_v2,
}

module _ (p : Platform) where
  abbrev Clean : Outcome p → Type 0
  Clean (some e, s, f) = s ≡ reset_all
  Clean (none, s, f) = any f ≡ false → s ≡ reset_all

  mark-any : (a : Applier) (f : Flags) → any (mark a f) ≡ true
  unfolding mark
  mark-any wifi_v2 f = refl
  mark-any c8y_v2 f = ground arith

  staged_or_reset-Clean :
      (a : Applier) (f : Flags) (go : Staged → Flags → Outcome p) (o : Rc × Staged)
      → ((s : Staged) (f : Flags) → (any f ≡ false → s ≡ reset_all) → Clean (go s f))
      → Clean (staged_or_reset p a f go o)
  staged_or_reset-Clean a f go (none, s) h = h s (mark a f) (λ e. absurd (marked e))
    where
      marked : any (mark a f) ≡ false → ⊥
      marked e = cc (mark-any a f, e)
  staged_or_reset-Clean a f go (some e, s) h = refl

  stage_next-Clean :
      (o : Next) (go : List ℕ → Staged → Flags → Outcome p) (s : Staged) (f : Flags)
      → (any f ≡ false → s ≡ reset_all)
      → ((rest : List ℕ) (s : Staged) (f : Flags)
          → (any f ≡ false → s ≡ reset_all)
          → Clean (go rest s f))
      → Clean (stage_next p o go s f)
  stage_next-Clean at_end go s f i h = i
  stage_next-Clean malformed go s f i h = refl
  stage_next-Clean (module_found m rest) go s f i h = found (find_applier (type_of m))
    where
      found : (o : Option Applier) → Clean (stage_found p o m s f (go rest))
      found none = h rest s f i
      found (some a) = staged_or_reset-Clean a f (go rest) (stage_module p a m s) (h rest)

  stage_loop-Clean :
      (n : ℕ) (cur : List ℕ) (s : Staged) (f : Flags)
      → (any f ≡ false → s ≡ reset_all)
      → Clean (stage_loop p n cur s f)
  unfolding stage_loop
  stage_loop-Clean zero cur s f i = i
  stage_loop-Clean (suc n) cur s f i =
      stage_next-Clean (ztp_manifest_next_module cur) (stage_loop p n) s f i (stage_loop-Clean n)

  commit_staged_scrubs :
      (o : Outcome p) → Clean o → let (rc, left, fx) = commit_staged p o in left ≡ reset_all
  commit_staged_scrubs (some e, s, f) h = h
  commit_staged_scrubs (none, s, f) h = cases (any f) h
    where
      cases :
          (b : Bool)
          → (b ≡ false → s ≡ reset_all)
          → (let (rc, left, fx) : Rc × Staged × List Effect =
                if b
                then (let (rc, fx) = commit_all p s f in (rc, reset_all, fx))
                else (some enodata, s, []) in
              left ≡ reset_all)
      cases true h = refl
      cases false h = h refl

  -- `ztp_apply_manifest` leaves nothing staged, credentials and one-time password included, on
  -- every path behind the header's checks, and where these fail it leaves the state as it was.
  pub ztp_apply_manifest_scrubs :
      (manifest device_id : List ℕ) (s : Staged)
      → let (rc, left, fx) = ztp_apply_manifest p manifest device_id s in
        left ≡ (if header_ok p (ztp_manifest_header manifest) device_id then reset_all else s)
  unfolding ztp_apply_manifest
  ztp_apply_manifest_scrubs manifest device_id s =
      cases (header_ok p (ztp_manifest_header manifest) device_id)
    where
      cases :
          (b : Bool)
          → (let (rc, left, fx) : Rc × Staged × List Effect =
                if b
                then commit_staged p (stage_loop p (length manifest) manifest reset_all no_flags)
                else (some eproto, s, []) in
              left ≡ (if b then reset_all else s))
      cases true =
          commit_staged_scrubs (stage_loop p (length manifest) manifest reset_all no_flags)
            (stage_loop-Clean (length manifest) manifest reset_all no_flags (λ _. refl))
      cases false = refl
