-- ===== src/Boot/Hook/Launch.antt =====
-- When the hook launches the provisioner.
use microcontroller_devices.Prelude.{◌≡◌, refl, arith, ◌⊎◌, ◌↔◌}
use microcontroller_devices.Prelude.{true}
use microcontroller_devices.Prelude.{some}
use microcontroller_devices.Boot.Request.{FlashMap, prov, succeeded}
use microcontroller_devices.Boot.Hook.{
  Bootutil, fih_success, boot_hook_regular, HookState, BootRsp, provisioner_requested, boot_go_hook,
  flash_area_id_from_multi_image_slot_hook,
}

-- A request, a partition with an image header, a readable slot layout, and a valid image.
pub record Launches {S : Type 0} (f : FlashMap S) (b : Bootutil S) (s : S) : Type 0 where
  pub requested : provisioner_requested f s ≡ true
  pub opens : succeeded (f.open_area s prov) ≡ true
  pub header : succeeded (b.load_header s).0 ≡ true
  pub areas : succeeded (b.open_all_flash_areas s) ≡ true
  pub sectors : succeeded (b.read_sectors s) ≡ true
  pub valid : b.img_validate s ≡ true

-- MCUboot launches the provisioner exactly where it is requested, its partition opens, its
-- header loads, the slot layout is readable, and its image is valid.
pub boot_go_hook_success_iff :
    {S : Type 0} (f : FlashMap S) (b : Bootutil S) (s : S) (h : HookState) (rsp : BootRsp)
    → ((boot_go_hook f b s h rsp).0 ≡ fih_success) ↔ Launches f b s
unfolding boot_go_hook
boot_go_hook_success_iff f b s h rsp = (
  λ e. record {
    requested = ground arith;
    opens = ground arith;
    header = ground arith;
    areas = ground arith;
    sectors = ground arith;
    valid = ground arith;
  },
  λ l. rw (l.requested, l.opens, l.header, l.areas, l.sectors, l.valid) refl,
)

-- A launch answers with the provisioner's place and the header that was loaded, and redirects every
-- slot to its partition; otherwise the response and the redirection stay as they were.
pub boot_go_hook_effect :
    {S : Type 0} (f : FlashMap S) (b : Bootutil S) (s : S) (h : HookState) (rsp : BootRsp)
    → let out = boot_go_hook f b s h rsp in
      ((out.0 ≡ fih_success)
        × (out.2 ≡ record {
          br_flash_dev_id = b.device_id;
          br_image_off = b.image_off;
          br_hdr = (b.load_header s).1;
        })
        × (flash_area_id_from_multi_image_slot_hook out.1 ≡ some prov))
      ⊎ ((out.0 ≡ boot_hook_regular)
          × (out.2 ≡ rsp)
          × (flash_area_id_from_multi_image_slot_hook out.1
              ≡ flash_area_id_from_multi_image_slot_hook h))
unfolding boot_go_hook flash_area_id_from_multi_image_slot_hook
boot_go_hook_effect f b s h rsp = ground arith
