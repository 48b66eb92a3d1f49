-- ===== src/Boot/Request.antt =====
-- lib/common/boot_request.c and boot_request.h: the record that asks for the provisioner.
pub mod Record
pub mod Flash
use microcontroller_devices.Prelude.{ℕ, zero, suc, ◌+◌, ◌-◌, ◌*◌, ◌/◌, ◌%◌, ◌^◌, ◌≤◌, ◌<◌}
use microcontroller_devices.Prelude.{ltb, leb, ◌==◌, if◌then◌else◌, ltb→lt, lt→ltb, leb→le, ==_iff}
use microcontroller_devices.Prelude.{◌≡◌, ◌≢◌, refl, sym, ap, ap₂, ◌∙◌, arith, ◌⊎◌, inl, inr, ◌↔◌}
use microcontroller_devices.Prelude.{Bool, true, false, ◌&&◌, ◌||◌, not, Bool-cases, Option-cases}
use microcontroller_devices.Prelude.{
  Option, none, some, List, [], ◌∷◌, ◌++◌, append-nil, append_assoc,
}
use microcontroller_devices.Prelude.{reverse, length, length-append, take, drop, All, All-append}
use microcontroller_devices.Prelude.{get_elem?, get_or, set, length-set}
use microcontroller_devices.Prelude.Int.{ℤ, pos, negsuc}

-- `bootreq_partition` and `prov_partition`.
pub data Partition : Type 0 where
  bootreq : Partition
  prov : Partition

-- Zephyr's flash map, over a state of the flash `S`: the return codes of `flash_area_open`,
-- `flash_area_read` with the bytes read, `flash_area_flatten` of a whole area and
-- `flash_area_write`.
pub record FlashMap (S : Type 0) : Type 0 where
  pub open_area : S → Partition → ℤ
  pub read_area : S → Partition → ℕ → ℕ → ℤ × List ℕ
  pub flatten_area : S → Partition → ℤ × S
  pub write_area : S → Partition → ℕ → List ℕ → ℤ × S

-- `rc == 0`.
abbrev pub succeeded : ℤ → Bool
succeeded (pos n) = n == 0
succeeded (negsuc n) = false

abbrev pub enoent : ℤ
enoent = negsuc 1

abbrev pub boot_request_magic : ℕ
boot_request_magic = 0x564F5250

abbrev pub image_magic : ℕ
image_magic = 0x96F3B83D

abbrev pub boot_request_provisioner : ℕ
boot_request_provisioner = 1

-- `enum boot_request_reason`.
pub data Reason : Type 0 where
  no_credentials : Reason
  operator : Reason

abbrev pub reason_value : Reason → ℕ
reason_value no_credentials = 1
reason_value operator = 2

-- `struct boot_request`.
pub record BootRequest : Type 0 where
  pub magic : ℕ
  pub target : ℕ
  pub reason : ℕ
  pub reserved : ℕ

-- The record in flash is little-endian: four words of four bytes.
abbrev pub word_bytes : ℕ → List ℕ
word_bytes v = v % 256 ∷ v / 2 ^ 8 % 256 ∷ v / 2 ^ 16 % 256 ∷ v / 2 ^ 24 % 256 ∷ []

-- The word at the front of some bytes.
abbrev pub word_at : List ℕ → ℕ
word_at (a ∷ b ∷ c ∷ d ∷ rest) = a + b * 2 ^ 8 + c * 2 ^ 16 + d * 2 ^ 24
word_at (a ∷ b ∷ c ∷ []) = 0
word_at (a ∷ b ∷ []) = 0
word_at (a ∷ []) = 0
word_at [] = 0

abbrev pub boot_request_size : ℕ
boot_request_size = 16

unfoldable pub request_bytes : BootRequest → List ℕ
request_bytes r =
    word_bytes r.magic ++ word_bytes r.target ++ word_bytes r.reason ++ word_bytes r.reserved

unfoldable pub request_of : List ℕ → BootRequest
request_of bs = record {
  magic = word_at bs;
  target = word_at (drop 4 bs);
  reason = word_at (drop 8 bs);
  reserved = word_at (drop 12 bs);
}

-- The return code, with the record where the read filled it.
unfoldable pub boot_request_read : {S : Type 0} → FlashMap S → S → ℤ × BootRequest
boot_request_read f s =
    let blank : BootRequest = record { magic = 0; target = 0; reason = 0; reserved = 0 } in
    let opened = f.open_area s bootreq in
    let (rc, bytes) = f.read_area s bootreq 0 boot_request_size in
    let out = request_of bytes in
    if not (succeeded opened)
    then (opened, blank)
    else (if not (succeeded rc)
        then (rc, out)
        else ((if out.magic == boot_request_magic then pos 0 else enoent), out))

unfoldable pub boot_request_set : {S : Type 0} → FlashMap S → S → ℕ → Reason → ℤ × S
boot_request_set f s target reason =
    let req : BootRequest = record {
      magic = boot_request_magic;
      target = target;
      reason = reason_value reason;
      reserved = 0;
    } in
    let opened = f.open_area s bootreq in
    let (rc, s') = f.flatten_area s bootreq in
    if not (succeeded opened)
    then (opened, s)
    else (if succeeded rc then f.write_area s' bootreq 0 (request_bytes req) else (rc, s'))

unfoldable pub boot_request_clear : {S : Type 0} → FlashMap S → S → ℤ × S
boot_request_clear f s =
    let opened = f.open_area s bootreq in
    if not (succeeded opened) then (opened, s) else f.flatten_area s bootreq

unfoldable pub boot_request_provisioner_present : {S : Type 0} → FlashMap S → S → Bool
boot_request_provisioner_present f s =
    let (rc, bytes) = f.read_area s prov 0 4 in
    succeeded (f.open_area s prov) && (succeeded rc && word_at bytes == image_magic)
