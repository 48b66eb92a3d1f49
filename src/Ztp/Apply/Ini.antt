-- ===== src/Ztp/Apply/Ini.antt =====
-- The INI bodies: `ini_walk` and `copy_val`.
use microcontroller_devices.Prelude.{ℕ, zero, suc, ◌-◌}
use microcontroller_devices.Prelude.{leb, ◌==◌, if◌then◌else◌}
use microcontroller_devices.Prelude.{Bool, ◌&&◌}
use microcontroller_devices.Prelude.{Option, none, some, List, [], ◌∷◌}
use microcontroller_devices.Prelude.{length, take, drop}
use microcontroller_devices.Prelude.{get_or}
use microcontroller_devices.Ztp.Errors.{Rc}
use microcontroller_devices.Ztp.Manifest.{Kv, first_line, strip_cr, kv_of}

-- What stands between the brackets of a section's line.
abbrev pub without_last : List ℕ → List ℕ
without_last s = take (length s - 1) s

abbrev pub last_byte : List ℕ → ℕ
last_byte s = get_or s (length s - 1) 0

abbrev pub bracketed : List ℕ → Bool
bracketed s = get_or s 0 0 == 91 && last_byte s == 93

-- `none` is a line that the walk skips.
pub data Line : Type 0 where
  section_line : List ℕ → Line
  kv_line : Kv → Line
  skipped : Line

abbrev pub kv_or_skipped : Option Kv → Line
kv_or_skipped none = skipped
kv_or_skipped (some kv) = kv_line kv

unfoldable pub line_kind : List ℕ → Line
line_kind line =
    if bracketed line then section_line (without_last (drop 1 line)) else kv_or_skipped (kv_of line)

module _ {S : Type 0} (fn : S → List ℕ → Option Kv → Rc × S) where
  -- What a line is to the walk: the section it is in, and the code that `fn` returned.
  abbrev pub call_line : List ℕ → S → Line → Rc × List ℕ × S
  call_line section s (section_line new) = let (rc, s) = fn s new none in (rc, new, s)
  call_line section s (kv_line kv) = let (rc, s) = fn s section (some kv) in (rc, section, s)
  call_line section s skipped = (none, section, s)

  unfoldable pub ini_loop : ℕ → List ℕ → List ℕ → S → Rc × S
  ini_loop zero cur section s = (none, s)
  ini_loop (suc fuel) [] section s = (none, s)
  ini_loop (suc fuel) (c ∷ cs) section s =
      let (line, rest) = first_line (c ∷ cs) in
      let (rc, section, s) = call_line section s (line_kind (strip_cr line)) in
      elim rc [ none ↦ ini_loop fuel rest section s | some e ↦ (some e, s) ]

  -- A line takes at least one byte.
  unfoldable pub ini_walk : List ℕ → S → Rc × S
  ini_walk buf s = ini_loop (length buf) buf [] s

-- The bytes that stand in a buffer of `size` bytes in front of the NUL.
unfoldable pub copy_val : ℕ → List ℕ → Option (List ℕ)
copy_val size v = if leb size (length v) then none else some v
