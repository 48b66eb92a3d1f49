-- ===== src/Boot/Request/Flash.antt =====
-- The request through the flash: what a later read finds after a set and after a clear.
use microcontroller_devices.Prelude.{ℕ, ◌^◌, ◌<◌}
use microcontroller_devices.Prelude.{◌==◌}
use microcontroller_devices.Prelude.{◌≡◌, refl, ap, ◌∙◌, arith, inl, inr}
use microcontroller_devices.Prelude.{true, false, Bool-cases}
use microcontroller_devices.Prelude.{List}
use microcontroller_devices.Prelude.{length}
use microcontroller_devices.Prelude.{replicate}
use microcontroller_devices.Prelude.Int.{pos}
use microcontroller_devices.Boot.Request.{
  Partition, bootreq, FlashMap, succeeded, enoent, boot_request_magic, Reason, no_credentials,
  operator, reason_value, BootRequest, request_bytes, request_of, boot_request_size,
  boot_request_read, boot_request_set, boot_request_clear,
}
use microcontroller_devices.Boot.Request.Record.{IsRequest, request_of-request_bytes}
use microcontroller_devices.Boot.Hook.{provisioner_requested}

-- As Zephyr documents its flash map: an area that was flattened reads as 0xFF, and one that was
-- flattened and then written reads as the bytes written.
pub record IsFlashMap {S : Type 0} (f : FlashMap S) : Type 0 where
  pub flatten_erases :
      (s : S) (p : Partition) (n : ℕ)
      → succeeded (f.flatten_area s p).0 ≡ true
      → succeeded (f.read_area (f.flatten_area s p).1 p 0 n).0 ≡ true
      → (f.read_area (f.flatten_area s p).1 p 0 n).1 ≡ replicate n 255
  pub write_stores :
      (s : S) (p : Partition) (bs : List ℕ)
      → succeeded (f.flatten_area s p).0 ≡ true
      → succeeded (f.write_area (f.flatten_area s p).1 p 0 bs).0 ≡ true
      → succeeded (f.read_area (f.write_area (f.flatten_area s p).1 p 0 bs).1 p 0 (length bs)).0
        ≡ true
      → (f.read_area (f.write_area (f.flatten_area s p).1 p 0 bs).1 p 0 (length bs)).1 ≡ bs

-- The record's partition opens and reads.
pub record Reads {S : Type 0} (f : FlashMap S) (s : S) : Type 0 where
  pub opens : succeeded (f.open_area s bootreq) ≡ true
  pub reads : succeeded (f.read_area s bootreq 0 boot_request_size).0 ≡ true

abbrev pub request_for : ℕ → Reason → BootRequest
request_for target reason = record {
  magic = boot_request_magic;
  target = target;
  reason = reason_value reason;
  reserved = 0;
}

request_for-IsRequest :
    (target : ℕ) (reason : Reason) → target < 2 ^ 32 → IsRequest (request_for target reason)
request_for-IsRequest target no_credentials h = ground arith
request_for-IsRequest target operator h = ground arith

-- What the flash holds after a set that succeeded.
set_stores :
    {S : Type 0} (f : FlashMap S) (s : S) (target : ℕ) (reason : Reason)
    → IsFlashMap f
    → target < 2 ^ 32
    → succeeded (boot_request_set f s target reason).0 ≡ true
    → Reads f (boot_request_set f s target reason).1
    → request_of (f.read_area (boot_request_set f s target reason).1 bootreq 0 boot_request_size).1
      ≡ request_for target reason
unfolding boot_request_set request_bytes
set_stores f s target reason laws h done r = elim (Bool-cases (succeeded (f.open_area s bootreq))) [
  | inl opened ↦ elim (Bool-cases (succeeded (f.flatten_area s bootreq).0)) [
    | inl erased ↦
        let d : succeeded
              (f.write_area (f.flatten_area s bootreq).1 bootreq 0
                (request_bytes (request_for target reason))).0
            ≡ true =
          rw (opened, erased) at done in
        let rd : succeeded
              (f.read_area
                (f.write_area (f.flatten_area s bootreq).1 bootreq 0
                  (request_bytes (request_for target reason))).1
                bootreq 0 boot_request_size).0
            ≡ true =
          rw (opened, erased) at r.reads in
        rw (opened, erased)
          (ap request_of
              (laws.write_stores s bootreq (request_bytes (request_for target reason)) erased d rd)
            ∙ (request_of-request_bytes (request_for target reason)
                (request_for-IsRequest target reason h)).0)
    | inr kept ↦ ground arith
  ]
  | inr closed ↦ ground arith
]

-- A set that succeeded, with a 32-bit target, is what `boot_request_read` finds, and MCUboot
-- sees a request for the provisioner exactly where that is the target. The flash map behaves as
-- documented, and the record's partition opens and reads.
pub boot_request_read-boot_request_set :
    {S : Type 0} (f : FlashMap S) (s : S) (target : ℕ) (reason : Reason)
    → IsFlashMap f
    → target < 2 ^ 32
    → succeeded (boot_request_set f s target reason).0 ≡ true
    → Reads f (boot_request_set f s target reason).1
    → (boot_request_read f (boot_request_set f s target reason).1
        ≡ (pos 0, request_for target reason))
      × (provisioner_requested f (boot_request_set f s target reason).1 ≡ (target == 1))
unfolding boot_request_read provisioner_requested
boot_request_read-boot_request_set f s target reason laws h done r =
    let q = set_stores f s target reason laws h done r in
    (rw (r.opens, r.reads, q) refl, rw (r.opens, r.reads, q) refl)

clear_erases :
    {S : Type 0} (f : FlashMap S) (s : S)
    → IsFlashMap f
    → succeeded (boot_request_clear f s).0 ≡ true
    → Reads f (boot_request_clear f s).1
    → (f.read_area (boot_request_clear f s).1 bootreq 0 boot_request_size).1
      ≡ replicate boot_request_size 255
unfolding boot_request_clear
clear_erases f s laws done r = elim (Bool-cases (succeeded (f.open_area s bootreq))) [
  | inl opened ↦
      let d : succeeded (f.flatten_area s bootreq).0 ≡ true = rw opened at done in
      let rd : succeeded (f.read_area (f.flatten_area s bootreq).1 bootreq 0 boot_request_size).0
          ≡ true =
        rw opened at r.reads in
      rw opened (laws.flatten_erases s bootreq boot_request_size d rd)
  | inr closed ↦ ground arith
]

-- After a clear that succeeded `boot_request_read` answers -ENOENT and MCUboot sees no request.
-- The flash map behaves as documented, and the record's partition opens and reads.
pub boot_request_read-boot_request_clear :
    {S : Type 0} (f : FlashMap S) (s : S)
    → IsFlashMap f
    → succeeded (boot_request_clear f s).0 ≡ true
    → Reads f (boot_request_clear f s).1
    → ((boot_request_read f (boot_request_clear f s).1).0 ≡ enoent)
      × (provisioner_requested f (boot_request_clear f s).1 ≡ false)
unfolding boot_request_read provisioner_requested request_of
boot_request_read-boot_request_clear f s laws done r =
    let q = clear_erases f s laws done r in
    (rw (r.opens, r.reads, q) refl, rw (r.opens, r.reads, q) refl)
