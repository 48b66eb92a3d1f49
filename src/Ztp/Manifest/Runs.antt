-- ===== src/Ztp/Manifest/Runs.antt =====
-- The loops of ztp_manifest.c as finite runs over the lines of a text, without fuel.
use microcontroller_devices.Prelude.{ℕ, zero, suc, ◌≤◌}
use microcontroller_devices.Prelude.{if◌then◌else◌}
use microcontroller_devices.Prelude.{◌≡◌, refl, sym, arith, inl, inr}
use microcontroller_devices.Prelude.{Bool, true, false, Option-cases}
use microcontroller_devices.Prelude.{Option, none, some, List, [], ◌∷◌}
use microcontroller_devices.Prelude.{length}
use microcontroller_devices.Prelude.Text.{codes}
use mathlib.Core.Path.{subst}
use microcontroller_devices.Ztp.Manifest.{
  Kv, first_line, strip_cr, kv_of, kv_or, kv_loop, ztp_kv_next, ztp_slice_eq, clear_fields,
  sealed_fields, Next, at_end, found_or_malformed, module_loop, ztp_manifest_next_module,
}
use microcontroller_devices.Ztp.Manifest.Lines.{first_line_le, kv_next_shorter}
use microcontroller_devices.Ztp.Manifest.Modules.{by_key, loop_zero, loop_some, loop_none}

-- A run of the loop of `ztp_kv_next` from a cursor, with what it returns.
pub data Reads : List ℕ → Option (Kv × List ℕ) → Type 0 where
  no_line : Reads [] none
  record_line :
      (c : ℕ) (cs : List ℕ) (kv : Kv)
      → kv_of (strip_cr (first_line (c ∷ cs)).0) ≡ some kv
      → Reads (c ∷ cs) (some (kv, (first_line (c ∷ cs)).1))
  skipped_line :
      (c : ℕ) (cs : List ℕ) (o : Option (Kv × List ℕ))
      → kv_of (strip_cr (first_line (c ∷ cs)).0) ≡ none
      → Reads (first_line (c ∷ cs)).1 o
      → Reads (c ∷ cs) o

-- A run of the loop of `ztp_manifest_next_module` from a cursor, with what it returns.
pub data Finds : List ℕ → Next → Type 0 where
  no_record : {cur : List ℕ} → Reads cur none → Finds cur at_end
  clear_line :
      {cur : List ℕ} (kv : Kv) (rest : List ℕ)
      → Reads cur (some (kv, rest))
      → ztp_slice_eq kv.key (codes "module") ≡ true
      → Finds cur (found_or_malformed (clear_fields kv.val) rest)
  sealed_line :
      {cur : List ℕ} (kv : Kv) (rest : List ℕ)
      → Reads cur (some (kv, rest))
      → ztp_slice_eq kv.key (codes "module") ≡ false
      → ztp_slice_eq kv.key (codes "module-sealed") ≡ true
      → Finds cur (found_or_malformed (sealed_fields kv.val) rest)
  other_line :
      {cur : List ℕ} (kv : Kv) (rest : List ℕ) (o : Next)
      → Reads cur (some (kv, rest))
      → ztp_slice_eq kv.key (codes "module") ≡ false
      → ztp_slice_eq kv.key (codes "module-sealed") ≡ false
      → Finds rest o
      → Finds cur o

kv_loop-Reads : (n : ℕ) (cur : List ℕ) → length cur ≤ n → Reads cur (kv_loop n cur)
unfolding kv_loop
kv_loop-Reads zero [] h = no_line
kv_loop-Reads (suc n) [] h = no_line
kv_loop-Reads zero (c ∷ cs) h = absurd (omega arith)
kv_loop-Reads (suc n) (c ∷ cs) h =
    cases (kv_of (strip_cr (first_line (c ∷ cs)).0)) refl
      (kv_loop-Reads n (first_line (c ∷ cs)).1 (omega (arith, first_line_le c cs)))
  where
    rest : List ℕ
    rest = (first_line (c ∷ cs)).1

    cases :
        (o : Option Kv)
        → kv_of (strip_cr (first_line (c ∷ cs)).0) ≡ o
        → Reads rest (kv_loop n rest)
        → Reads (c ∷ cs) (kv_or o rest (kv_loop n rest))
    cases none e r = skipped_line c cs (kv_loop n rest) e r
    cases (some kv) e r = record_line c cs kv e

kv_next-Reads : (cur : List ℕ) → Reads cur (ztp_kv_next cur)
unfolding ztp_kv_next
kv_next-Reads cur = kv_loop-Reads (length cur) cur (omega arith)

by_key-Finds :
    (cur : List ℕ) (kv : Kv) (rest : List ℕ) (later : Next)
    → Reads cur (some (kv, rest))
    → Finds rest later
    → Finds cur (by_key kv rest later)
by_key-Finds cur kv rest later r f =
    cases (ztp_slice_eq kv.key (codes "module")) (ztp_slice_eq kv.key (codes "module-sealed")) refl
      refl
  where
    cases :
        (a b : Bool)
        → ztp_slice_eq kv.key (codes "module") ≡ a
        → ztp_slice_eq kv.key (codes "module-sealed") ≡ b
        → Finds cur (
            if a
            then found_or_malformed (clear_fields kv.val) rest
            else if b
            then found_or_malformed (sealed_fields kv.val) rest
            else later)
    cases true b g h = clear_line kv rest r g
    cases false true g h = sealed_line kv rest r g h
    cases false false g h = other_line kv rest later r g h f

module_loop-Finds : (n : ℕ) (cur : List ℕ) → length cur ≤ n → Finds cur (module_loop n cur)
module_loop-Finds zero [] h = subst (Finds []) (sym (loop_zero [])) (no_record no_line)
module_loop-Finds zero (c ∷ cs) h = absurd (omega arith)
module_loop-Finds (suc n) cur h = elim (Option-cases (ztp_kv_next cur)) [
  | inl e ↦
      subst (Finds cur) (sym (loop_none n cur e))
        (no_record (subst (Reads cur) e (kv_next-Reads cur)))
  | inr ((kv, rest), e) ↦ subst (Finds cur) (sym (loop_some n cur kv rest e)) (
      by_key-Finds cur kv rest (module_loop n rest) (subst (Reads cur) e (kv_next-Reads cur)) (
        module_loop-Finds n rest
          (omega (arith, kv_next_shorter (length cur) cur kv rest (omega arith) e))))
]

pub next_module-Finds : (cur : List ℕ) → Finds cur (ztp_manifest_next_module cur)
unfolding ztp_manifest_next_module
next_module-Finds cur = module_loop-Finds (length cur) cur (omega arith)
