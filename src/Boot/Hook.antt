-- ===== src/Boot/Hook.antt =====
-- lib/mcuboot-hooks/prov_hooks.c: MCUboot's decision between the application and the provisioner.
pub mod Launch
use microcontroller_devices.Prelude.{ℕ, zero, suc, ◌+◌, ◌-◌, ◌*◌, ◌/◌, ◌%◌, ◌^◌, ◌≤◌, ◌<◌}
use microcontroller_devices.Prelude.{ltb, leb, ◌==◌, if◌then◌else◌, ltb→lt, lt→ltb, leb→le, ==_iff}
use microcontroller_devices.Prelude.{◌≡◌, ◌≢◌, refl, sym, ap, ap₂, ◌∙◌, arith, ◌⊎◌, inl, inr, ◌↔◌}
use microcontroller_devices.Prelude.{Bool, true, false, ◌&&◌, ◌||◌, not, Bool-cases, Option-cases}
use microcontroller_devices.Prelude.{
  Option, none, some, List, [], ◌∷◌, ◌++◌, append-nil, append_assoc,
}
use microcontroller_devices.Prelude.{reverse, length, length-append, take, drop, All, All-append}
use microcontroller_devices.Prelude.{get_elem?, get_or, set, length-set}
use microcontroller_devices.Prelude.Int.{ℤ, pos, negsuc}
use microcontroller_devices.Boot.Request.{
  FlashMap, Partition, bootreq, prov, succeeded, request_of, boot_request_size, boot_request_magic,
  boot_request_provisioner,
}

-- What the hook calls of MCUboot: the header of the provisioner's image with the return code, the
-- two return codes of building the loader state, the verdict of `bootutil_img_validate`, and the
-- place of the partition.
pub record Bootutil (S : Type 0) : Type 0 where
  pub load_header : S → ℤ × List ℕ
  pub open_all_flash_areas : S → ℤ
  pub read_sectors : S → ℤ
  pub img_validate : S → Bool
  pub device_id : ℕ
  pub image_off : ℕ

-- `FIH_SUCCESS` and `FIH_BOOT_HOOK_REGULAR`.
pub data HookResult : Type 0 where
  fih_success : HookResult
  boot_hook_regular : HookResult

-- The static variables of the hooks.
pub record HookState : Type 0 where
  pub prov_launch : Bool
  pub prov_hdr : List ℕ

-- `struct boot_rsp`.
pub record BootRsp : Type 0 where
  pub br_flash_dev_id : ℕ
  pub br_image_off : ℕ
  pub br_hdr : List ℕ

unfoldable pub provisioner_requested : {S : Type 0} → FlashMap S → S → Bool
provisioner_requested f s =
    let (rc, bytes) = f.read_area s bootreq 0 boot_request_size in
    let req = request_of bytes in
    succeeded (f.open_area s bootreq)
    && (succeeded rc && (req.magic == boot_request_magic && req.target == boot_request_provisioner))

pub boot_go_hook :
    {S : Type 0}
    → FlashMap S
    → Bootutil S
    → S
    → HookState
    → BootRsp
    → HookResult × HookState × BootRsp
boot_go_hook f b s h rsp =
    let (rc, hdr) = b.load_header s in
    let loaded = record h { prov_hdr = hdr } in
    if not (provisioner_requested f s)
    then (boot_hook_regular, h, rsp)
    else (if not (succeeded (f.open_area s prov))
        then (boot_hook_regular, h, rsp)
        else (if not (succeeded rc)
            then (boot_hook_regular, loaded, rsp)
            else (if not (succeeded (b.open_all_flash_areas s))
                  || not (succeeded (b.read_sectors s))
                then (boot_hook_regular, loaded, rsp)
                else (if not (b.img_validate s) then (boot_hook_regular, loaded, rsp) else (
                  fih_success,
                  record loaded { prov_launch = true },
                  record {
                    br_flash_dev_id = b.device_id;
                    br_image_off = b.image_off;
                    br_hdr = hdr;
                  },
                )))))

-- The area of a slot: the provisioner's behind a launch, and MCUboot's own otherwise.
pub flash_area_id_from_multi_image_slot_hook : HookState → Option Partition
flash_area_id_from_multi_image_slot_hook h = if h.prov_launch then some prov else none
