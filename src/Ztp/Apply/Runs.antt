-- ===== src/Ztp/Apply/Runs.antt =====
-- The staging loop of `ztp_apply_manifest` as a finite run over a manifest, without fuel.
use microcontroller_devices.Prelude.{ℕ, zero, suc, ◌≤◌, ◌<◌}
use microcontroller_devices.Prelude.{◌≡◌, refl, arith}
use microcontroller_devices.Prelude.{Option, none, some, List, [], ◌∷◌}
use microcontroller_devices.Prelude.{length}
use microcontroller_devices.Ztp.Errors.{Errno, eproto, Rc}
use microcontroller_devices.Ztp.Manifest.{
  Module, Next, module_found, at_end, malformed, type_of, ztp_manifest_next_module,
}
use microcontroller_devices.Ztp.Manifest.Modules.{next_module_shorter}
use microcontroller_devices.Ztp.Manifest.Runs.{Finds, no_record, no_line, next_module-Finds}
use microcontroller_devices.Ztp.Apply.Staging.{
  Platform, Staged, reset_all, Applier, find_applier, Flags, mark, stage_module, Outcome,
  stage_found, staged_or_reset, stage_next, stage_loop,
}

module _ (p : Platform) where
  -- A run of the loop from a cursor and what is staged, with its outcome. Every turn goes on from
  -- the cursor that the module before it left.
  pub data Stages : List ℕ → Staged → Flags → Outcome p → Type 0 where
    ended : {cur : List ℕ} {s : Staged} {f : Flags} → Finds cur at_end → Stages cur s f (none, s, f)
    broken :
        {cur : List ℕ} {s : Staged} {f : Flags}
        → Finds cur malformed
        → Stages cur s f (some eproto, reset_all, f)
    skipped :
        {cur : List ℕ} {s : Staged} {f : Flags} (m : Module) (rest : List ℕ) (o : Outcome p)
        → Finds cur (module_found m rest)
        → find_applier (type_of m) ≡ none
        → Stages rest s f o
        → Stages cur s f o
    staged :
        {cur : List ℕ} {s : Staged} {f : Flags} (m : Module) (rest : List ℕ) (a : Applier)
        (s' : Staged) (o : Outcome p)
        → Finds cur (module_found m rest)
        → find_applier (type_of m) ≡ some a
        → stage_module p a m s ≡ (none, s')
        → Stages rest s' (mark a f) o
        → Stages cur s f o
    refused :
        {cur : List ℕ} {s : Staged} {f : Flags} (m : Module) (rest : List ℕ) (a : Applier)
        (e : Errno) (s' : Staged)
        → Finds cur (module_found m rest)
        → find_applier (type_of m) ≡ some a
        → stage_module p a m s ≡ (some e, s')
        → Stages cur s f (some e, reset_all, f)

  stage_found-Stages :
      (cur : List ℕ) (m : Module) (rest : List ℕ) (s : Staged) (f : Flags)
      (go : Staged → Flags → Outcome p)
      → Finds cur (module_found m rest)
      → ((s' : Staged) (f' : Flags) → Stages rest s' f' (go s' f'))
      → Stages cur s f (stage_found p (find_applier (type_of m)) m s f go)
  stage_found-Stages cur m rest s f go found h = cases (find_applier (type_of m)) refl
    where
      by_code :
          (a : Applier) (r : Rc × Staged)
          → find_applier (type_of m) ≡ some a
          → stage_module p a m s ≡ r
          → Stages cur s f (staged_or_reset p a f go r)
      by_code a (none, s') e k = staged m rest a s' (go s' (mark a f)) found e k (h s' (mark a f))
      by_code a (some x, s') e k = refused m rest a x s' found e k

      cases :
          (o : Option Applier)
          → find_applier (type_of m) ≡ o
          → Stages cur s f (stage_found p o m s f go)
      cases none e = skipped m rest (go s f) found e (h s f)
      cases (some a) e = by_code a (stage_module p a m s) e refl

  stage_next-Stages :
      (cur : List ℕ) (o : Next) (go : List ℕ → Staged → Flags → Outcome p) (s : Staged) (f : Flags)
      → Finds cur o
      → ((m : Module) (rest : List ℕ) (s' : Staged) (f' : Flags)
          → o ≡ module_found m rest
          → Stages rest s' f' (go rest s' f'))
      → Stages cur s f (stage_next p o go s f)
  stage_next-Stages cur at_end go s f found h = ended found
  stage_next-Stages cur malformed go s f found h = broken found
  stage_next-Stages cur (module_found m rest) go s f found h =
      stage_found-Stages cur m rest s f (go rest) found (λ s' f'. h m rest s' f' refl)

  -- The staging loop ends by itself: with at least as many turns as the manifest has bytes, which
  -- is what `ztp_apply_manifest` gives, its outcome is that of a finite run without fuel, in which
  -- every turn goes on behind the lines that the turn before it read, down to the end of the text,
  -- a malformed module line or a module that is refused.
  pub stage_loop-Stages :
      (n : ℕ) (cur : List ℕ) (s : Staged) (f : Flags)
      → length cur ≤ n
      → Stages cur s f (stage_loop p n cur s f)
  unfolding stage_loop
  stage_loop-Stages zero [] s f h = ended (no_record no_line)
  stage_loop-Stages zero (c ∷ cs) s f h = absurd (omega arith)
  stage_loop-Stages (suc n) cur s f h =
      stage_next-Stages cur (ztp_manifest_next_module cur) (stage_loop p n) s f
        (next_module-Finds cur)
        (λ m rest s' f' e.
          let short : length rest < length cur = next_module_shorter cur m rest e in
          stage_loop-Stages n rest s' f' (omega arith))
