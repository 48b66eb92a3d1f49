-- ===== src/Tests/Boot.antt =====
-- A flash of two areas in memory, and the theorems on it.
use microcontroller_devices.Prelude.{ℕ, zero, suc}
use microcontroller_devices.Prelude.{◌≡◌, refl, ap, arith, ◌↔◌}
use microcontroller_devices.Prelude.{true, false}
use microcontroller_devices.Prelude.{List, [], ◌∷◌}
use microcontroller_devices.Prelude.{length, drop}
use microcontroller_devices.Prelude.{replicate}
use microcontroller_devices.Prelude.Int.{pos}
use microcontroller_devices.Boot.Request.{
  Partition, bootreq, prov, FlashMap, no_credentials, operator, boot_request_read, boot_request_set,
  boot_request_provisioner_present,
}
use microcontroller_devices.Boot.Request.Flash.{
  IsFlashMap, Reads, request_for, boot_request_read-boot_request_set,
}
use microcontroller_devices.Boot.Hook.{
  Bootutil, fih_success, HookState, BootRsp, provisioner_requested, boot_go_hook,
}
use microcontroller_devices.Boot.Hook.Launch.{Launches, boot_go_hook_success_iff}
use microcontroller_devices.Boot.Handoff.{
  WifiCredentials, app_prov_handoff_no_credentials, request_provisioner,
}
use microcontroller_devices.Boot.Handoff.Reboot.{
  IsBootable, Hands, app_prov_handoff_no_credentials-Hands,
}

-- The bytes of the two areas; behind them the flash is erased.
abbrev Areas : Type 0
Areas = (Partition → List ℕ)

abbrev pad : ℕ → List ℕ → List ℕ
pad zero bs = []
pad (suc n) [] = 255 ∷ pad n []
pad (suc n) (b ∷ bs) = b ∷ pad n bs

abbrev update : Areas → Partition → List ℕ → Areas
update s bootreq bs bootreq = bs
update s bootreq bs prov = s prov
update s prov bs bootreq = s bootreq
update s prov bs prov = bs

-- Writes are at offset 0, and replace the bytes of an erased area.
abbrev ram : FlashMap Areas
ram = record {
  open_area = λ s p. pos 0;
  read_area = λ s p off n. (pos 0, pad n (drop off (s p)));
  flatten_area = λ s p. (pos 0, update s p []);
  write_area = λ s p off bs. (pos 0, update s p bs);
}

pad_nil : (n : ℕ) → pad n [] ≡ replicate n 255
pad_nil zero = refl
pad_nil (suc n) = ap (λ l. 255 ∷ l) (pad_nil n)

pad_whole : (bs : List ℕ) → pad (length bs) bs ≡ bs
pad_whole [] = refl
pad_whole (b ∷ bs) = ap (λ l. b ∷ l) (pad_whole bs)

ram-IsFlashMap : IsFlashMap ram
ram-IsFlashMap = record {
  flatten_erases = λ s p n h k. erased s p n;
  write_stores = λ s p bs h k l. stored s p bs;
}
  where
    erased : (s : Areas) (p : Partition) (n : ℕ) → pad n (update s p [] p) ≡ replicate n 255
    erased s bootreq n = pad_nil n
    erased s prov n = pad_nil n

    stored :
        (s : Areas) (p : Partition) (bs : List ℕ)
        → pad (length bs) (update (update s p []) p bs p) ≡ bs
    stored s bootreq bs = pad_whole bs
    stored s prov bs = pad_whole bs

ram-Reads : (s : Areas) → Reads ram s
ram-Reads s = record { opens = refl; reads = refl }

-- A board with a provisioner's image and no request.
abbrev flashed : Areas
flashed bootreq = []
flashed prov = 0x3D ∷ 0xB8 ∷ 0xF3 ∷ 0x96 ∷ []

abbrev bare : Areas
bare bootreq = []
bare prov = []

abbrev loader : Bootutil Areas
loader = record {
  load_header = λ s. (pos 0, s prov);
  open_all_flash_areas = λ s. pos 0;
  read_sectors = λ s. pos 0;
  img_validate = λ s. true;
  device_id = 0;
  image_off = 0x200000;
}

loader-IsBootable : (s : Areas) → IsBootable ram loader s
loader-IsBootable s = record {
  opens = refl;
  header = refl;
  areas = refl;
  sectors = refl;
  valid = refl;
}

boot_request_read-boot_request_set_example :
    (boot_request_read ram (boot_request_set ram flashed 1 operator).1
      ≡ (pos 0, request_for 1 operator))
    × (provisioner_requested ram (boot_request_set ram flashed 1 operator).1 ≡ true)
unfolding boot_request_set
boot_request_read-boot_request_set_example =
    boot_request_read-boot_request_set ram flashed 1 operator ram-IsFlashMap (omega arith) refl
      (ram-Reads (boot_request_set ram flashed 1 operator).1)

abbrev fresh_hook : HookState
fresh_hook = record { prov_launch = false; prov_hdr = [] }

abbrev blank_rsp : BootRsp
blank_rsp = record { br_flash_dev_id = 0; br_image_off = 0; br_hdr = [] }

boot_go_hook_success_iff_example :
    ((boot_go_hook ram loader flashed fresh_hook blank_rsp).0 ≡ fih_success)
    ↔ Launches ram loader flashed
boot_go_hook_success_iff_example = boot_go_hook_success_iff ram loader flashed fresh_hook blank_rsp

app_prov_handoff_no_credentials-Hands_example :
    Hands ram loader (app_prov_handoff_no_credentials ram flashed).1 no_credentials
unfolding app_prov_handoff_no_credentials request_provisioner boot_request_provisioner_present
    boot_request_set
app_prov_handoff_no_credentials-Hands_example =
    app_prov_handoff_no_credentials-Hands ram loader flashed ram-IsFlashMap refl
      (ram-Reads (app_prov_handoff_no_credentials ram flashed).1)
      (loader-IsBootable (app_prov_handoff_no_credentials ram flashed).1)

abbrev wifi : WifiCredentials Areas
wifi = record { delete_all = λ s. s; resolve = λ s. false }
