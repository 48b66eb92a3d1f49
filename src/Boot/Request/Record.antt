-- ===== src/Boot/Request/Record.antt =====
-- The record in flash: reading back what was written.
use microcontroller_devices.Prelude.{ℕ, ◌+◌, ◌*◌, ◌/◌, ◌%◌, ◌^◌, ◌<◌}
use microcontroller_devices.Prelude.{◌≡◌, refl, arith}
use microcontroller_devices.Prelude.{length}
use microcontroller_devices.Boot.Request.{BootRequest, request_bytes, request_of, boot_request_size}

word_at-word_bytes :
    (v : ℕ)
    → v < 2 ^ 32
    → v % 256 + v / 2 ^ 8 % 256 * 2 ^ 8 + v / 2 ^ 16 % 256 * 2 ^ 16 + v / 2 ^ 24 % 256 * 2 ^ 24 ≡ v
word_at-word_bytes v h = omega arith

-- The record's words are uint32_t.
pub record IsRequest (r : BootRequest) : Type 0 where
  pub magic : r.magic < 2 ^ 32
  pub target : r.target < 2 ^ 32
  pub reason : r.reason < 2 ^ 32
  pub reserved : r.reserved < 2 ^ 32

-- A record of 32-bit words is 16 bytes in flash, and reads back as it was written.
pub request_of-request_bytes :
    (r : BootRequest)
    → IsRequest r
    → (request_of (request_bytes r) ≡ r) × (length (request_bytes r) ≡ boot_request_size)
unfolding request_of request_bytes
request_of-request_bytes r h = (
  simp (
    word_at-word_bytes r.magic h.magic,
    word_at-word_bytes r.target h.target,
    word_at-word_bytes r.reason h.reason,
    word_at-word_bytes r.reserved h.reserved,
  ),
  refl,
)
