-- ===== src/Ztp/Apply/Printed.antt =====
-- `ztp_apply_manifest` on a manifest that is printed from its modules.
use microcontroller_devices.Prelude.{ℕ, zero, suc, ◌≤◌}
use microcontroller_devices.Prelude.{◌≡◌, refl, sym, ap, ◌∙◌, arith}
use microcontroller_devices.Prelude.{true, false}
use microcontroller_devices.Prelude.{Option, none, some, List, [], ◌∷◌, ◌++◌}
use microcontroller_devices.Prelude.{length, length-append, All}
use microcontroller_devices.Ztp.Errors.{Errno, Rc, is_ok}
use microcontroller_devices.Ztp.Manifest.{
  Kv, Header, header_kv, ztp_slice_eq, fold_left, Module, clear, sealed, type_of,
  ztp_manifest_next_module, ztp_manifest_header,
}
use microcontroller_devices.Ztp.Apply.Staging.{
  Platform, Staged, reset_all, Applier, find_applier, stage, stage_module, module_payload, Flags,
  no_flags, mark, Outcome, staged_or_reset, stage_found, stage_next, stage_loop, commit_staged,
  ztp_apply_manifest, wifi_v2, c8y_v2,
}
use mathlib.Core.List.{map}
use mathlib.Core.Path.{fun_ext, subst}
use microcontroller_devices.Prelude.Text.{codes, text_eq}
use microcontroller_devices.Ztp.Manifest.Enroll.{slice_eq_refl}
use microcontroller_devices.Ztp.Manifest.Lines.{IsLine, line_of, text_of, records_of-text_of}
use microcontroller_devices.Ztp.Manifest.Modules.{
  next_module_skip, next_module_nil, IsField, kv_of_module, fields_of, next_module_line,
}

-- A module that can be printed.
pub record IsModule (m : Module) : Type 0 where
  pub one_line : IsLine (kv_of_module m)
  pub fields : All IsField (fields_of m)

module _ (p : Platform) where
  -- The staging of a list of modules.
  unfoldable pub stage_all : List Module → Staged → Flags → Outcome p
  stage_all [] s f = (none, s, f)
  stage_all (m ∷ ms) s f = stage_found p (find_applier (type_of m)) m s f (stage_all ms)

  stage_loop-text_of :
      (n : ℕ) (ms : List Module) (s : Staged) (f : Flags)
      → All IsModule ms
      → length (text_of (map kv_of_module ms)) ≤ n
      → stage_loop p n (text_of (map kv_of_module ms)) s f ≡ stage_all ms s f
  unfolding stage_loop stage_all
  stage_loop-text_of zero [] s f h k = refl
  stage_loop-text_of (suc n) [] s f h k =
      ap (λ o. stage_next p o (stage_loop p n) s f) next_module_nil
  stage_loop-text_of zero (m ∷ ms) s f h k =
      absurd (
        omega
          (arith, length-append (line_of (kv_of_module m)) (10 ∷ text_of (map kv_of_module ms))))
  stage_loop-text_of (suc n) (m ∷ ms) s f h k =
      let more = length-append (line_of (kv_of_module m)) (10 ∷ text_of (map kv_of_module ms)) in
      ap (λ o. stage_next p o (stage_loop p n) s f)
        (next_module_line m (text_of (map kv_of_module ms)) h.0.one_line h.0.fields)
      ∙ ap (stage_found p (find_applier (type_of m)) m s f)
          (fun_ext (λ s'. fun_ext (λ f'. stage_loop-text_of n ms s' f' h.1 (omega (arith, more)))))

  -- The header and the modules of a manifest.
  abbrev pub records : List ℕ → List Module → List Kv
  records id ms =
      record { key = codes "device_id"; val = id }
      ∷ record { key = codes "protocol_version"; val = codes "1" }
      ∷ map kv_of_module ms

  header_module : (h : Header) (m : Module) → header_kv h (kv_of_module m) ≡ h
  unfolding header_kv ztp_slice_eq text_eq
  header_module h (clear type payload) = refl
  header_module h (sealed type format eph nonce ciphertext) = refl

  header_modules : (h : Header) (ms : List Module) → fold_left header_kv h (map kv_of_module ms) ≡ h
  header_modules h [] = refl
  header_modules h (m ∷ ms) =
      ap (λ h. fold_left header_kv h (map kv_of_module ms)) (header_module h m)
      ∙ header_modules h ms

  header_printed :
      (id : List ℕ) (ms : List Module)
      → All IsLine (records id ms)
      → ztp_manifest_header (text_of (records id ms)) ≡ record { device_id = id; version_ok = true }
  unfolding ztp_manifest_header header_kv ztp_slice_eq text_eq
  header_printed id ms h =
      ap (fold_left header_kv (record { device_id = []; version_ok = false }))
        (records_of-text_of (records id ms) h)
      ∙ header_modules (record { device_id = id; version_ok = true }) ms

  next_printed :
      (id : List ℕ) (ms : List Module)
      → All IsLine (records id ms)
      → ztp_manifest_next_module (text_of (records id ms))
        ≡ ztp_manifest_next_module (text_of (map kv_of_module ms))
  unfolding ztp_slice_eq text_eq
  next_printed id ms h =
      let version : Kv = record { key = codes "protocol_version"; val = codes "1" } in
      next_module_skip (record { key = codes "device_id"; val = id })
        (line_of version ++ (10 ∷ text_of (map kv_of_module ms))) h.0 refl refl
      ∙ next_module_skip version (text_of (map kv_of_module ms)) h.1.0 refl refl

  loop_printed :
      (n : ℕ) (id : List ℕ) (ms : List Module) (s : Staged) (f : Flags)
      → All IsLine (records id ms)
      → All IsModule ms
      → length (text_of (records id ms)) ≤ n
      → stage_loop p n (text_of (records id ms)) s f ≡ stage_all ms s f
  unfolding stage_loop
  loop_printed zero id ms s f h k i = absurd (omega arith)
  loop_printed (suc n) id ms s f h k i =
      ap (λ o. stage_next p o (stage_loop p n) s f) (next_printed id ms h)
      ∙ stage_loop-text_of (suc n) ms s f k
          (omega (arith, shorter id (text_of (map kv_of_module ms))))
    where
      shorter :
          (id rest : List ℕ)
          → length rest
            ≤ length (
                line_of (record { key = codes "device_id"; val = id })
                ++ (10 ∷ line_of (record { key = codes "protocol_version"; val = codes "1" })
                    ++ (10 ∷ rest)))
      shorter id rest = omega (
        arith,
        length-append (line_of (record { key = codes "device_id"; val = id })) (
            10 ∷ line_of (record { key = codes "protocol_version"; val = codes "1" })
            ++ (10 ∷ rest)),
      )

  -- The whole run on a printed manifest for the device.
  pub apply_printed :
      (id : List ℕ) (ms : List Module) (s : Staged)
      → All IsLine (records id ms)
      → All IsModule ms
      → ztp_apply_manifest p (text_of (records id ms)) id s
        ≡ commit_staged p (stage_all ms reset_all no_flags)
  unfolding ztp_apply_manifest
  apply_printed id ms s h k =
      rw (header_printed id ms h, slice_eq_refl id)
        (ap (commit_staged p) (
          loop_printed (length (text_of (records id ms))) id ms reset_all no_flags h k
            (omega arith)))

  -- What a module of an applier returns does not depend on what is staged.
  stage_module_rc :
      (a : Applier) (m : Module) (s s' : Staged)
      → (stage_module p a m s).0 ≡ (stage_module p a m s').0
  unfolding stage_module stage
  stage_module_rc a m s s' = cases a (module_payload p m)
    where
      cases :
          (a : Applier) (o : Rc × List ℕ)
          → (let (rc, payload) = o in
              elim rc as (λ _. Rc × Staged) [ none ↦ stage p a payload s | some e ↦ (some e, s) ]).0
            ≡ (let (rc, payload) = o in
                elim rc as (λ _. Rc × Staged) [
                  | none ↦ stage p a payload s'
                  | some e ↦ (some e, s')
                ]).0
      cases wifi_v2 (none, payload) = refl
      cases c8y_v2 (none, payload) = refl
      cases a (some e, payload) = refl

  abbrev Failed : Outcome p → Type 0
  Failed (some e, s, f) = Unit
  Failed (none, s, f) = ⊥

  staged_or_reset-Failed :
      (a : Applier) (m : Module) (f : Flags) (go : Staged → Flags → Outcome p) (o : Rc × Staged)
      (e : Errno)
      → o.0 ≡ some e
      → Failed (staged_or_reset p a f go o)
  staged_or_reset-Failed a m f go (some x, s) e h = tt
  staged_or_reset-Failed a m f go (none, s) e h = absurd (none_some h)
    where
      none_some : ◌≡◌ {A = Rc} none (some e) → ⊥
      none_some h = cc

  stage_found-Failed :
      (o : Option Applier) (m : Module) (s : Staged) (f : Flags) (go : Staged → Flags → Outcome p)
      → ((s : Staged) (f : Flags) → Failed (go s f))
      → Failed (stage_found p o m s f go)
  stage_found-Failed none m s f go h = h s f
  stage_found-Failed (some a) m s f go h = cases (stage_module p a m s)
    where
      cases : (o : Rc × Staged) → Failed (staged_or_reset p a f go o)
      cases (none, s') = h s' (mark a f)
      cases (some e, s') = tt

  refused_fails :
      (ms : List Module) (m : Module) (ms' : List Module) (a : Applier) (e : Errno)
      → find_applier (type_of m) ≡ some a
      → (stage_module p a m reset_all).0 ≡ some e
      → (s : Staged) (f : Flags) → Failed (stage_all (ms ++ (m ∷ ms')) s f)
  unfolding stage_all
  refused_fails [] m ms' a e h k s f =
      subst (λ o. Failed (stage_found p o m s f (stage_all ms'))) (sym h)
        (staged_or_reset-Failed a m f (stage_all ms') (stage_module p a m s) e
          (stage_module_rc a m s reset_all ∙ k))
  refused_fails (n ∷ ms) m ms' a e h k s f =
      stage_found-Failed (find_applier (type_of n)) n s f (stage_all (ms ++ (m ∷ ms')))
        (refused_fails ms m ms' a e h k)

  commit_staged_nothing :
      (o : Outcome p)
      → Failed o
      → let (rc, left, fx) = commit_staged p o in (fx ≡ []) × (is_ok rc ≡ false)
  commit_staged_nothing (some e, s, f) h = (refl, refl)
  commit_staged_nothing (none, s, f) h = absurd h

  -- A manifest for the device in which one module that has an applier is refused at staging,
  -- wherever it stands, commits nothing and returns an error. Its header and modules are printable
  -- lines.
  pub apply_refused :
      (id : List ℕ) (ms : List Module) (m : Module) (ms' : List Module) (a : Applier) (e : Errno)
      (s : Staged)
      → All IsLine (records id (ms ++ (m ∷ ms')))
      → All IsModule (ms ++ (m ∷ ms'))
      → find_applier (type_of m) ≡ some a
      → (stage_module p a m reset_all).0 ≡ some e
      → let (rc, left, fx) = ztp_apply_manifest p (text_of (records id (ms ++ (m ∷ ms')))) id s in
        (fx ≡ []) × (is_ok rc ≡ false)
  apply_refused id ms m ms' a e s h k i j =
      subst (λ r. (r.2 ≡ []) × (is_ok r.0 ≡ false)) (sym (apply_printed id (ms ++ (m ∷ ms')) s h k))
        (commit_staged_nothing (stage_all (ms ++ (m ∷ ms')) reset_all no_flags)
          (refused_fails ms m ms' a e i j reset_all no_flags))
