-- ===== src/Ztp/Errors.antt =====
-- The negative error numbers that the code under apps/wifi-provisioner/src/ returns.
use microcontroller_devices.Prelude.{ℕ, Bool, true, false, Option, none, some}

pub data Errno : Type 0 where
  einval : Errno
  eproto : Errno
  e2big : Errno
  enodata : Errno
  enotsup : Errno
  enetunreach : Errno
  eagain : Errno
  enomem : Errno
  enotconn : Errno
  other_error : ℕ → Errno

-- A return code: `none` is 0.
abbrev pub Rc : Type 0
Rc = Option Errno

abbrev pub is_ok : Rc → Bool
is_ok none = true
is_ok (some e) = false
