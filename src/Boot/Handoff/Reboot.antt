-- ===== src/Boot/Handoff/Reboot.antt =====
-- From the application's decision to what MCUboot launches next.
use microcontroller_devices.Prelude.{◌≡◌, refl, arith, ◌⊎◌, inl, inr}
use microcontroller_devices.Prelude.{true, false, Bool-cases}
use microcontroller_devices.Prelude.Int.{pos}
use microcontroller_devices.Button.Gesture.{
  Gesture, gesture_none, provision, erase_armed, erase, identify,
}
use microcontroller_devices.Boot.Request.{
  FlashMap, prov, Reason, no_credentials, succeeded, boot_request_read, boot_request_set,
  boot_request_provisioner_present, boot_request_provisioner,
}
use microcontroller_devices.Boot.Request.Flash.{
  IsFlashMap, Reads, request_for, boot_request_read-boot_request_set,
}
use microcontroller_devices.Boot.Hook.{Bootutil, fih_success, HookState, BootRsp, boot_go_hook}
use microcontroller_devices.Boot.Hook.Launch.{boot_go_hook_success_iff}
use microcontroller_devices.Boot.Handoff.{
  returned, rebooted, WifiCredentials, request_provisioner, app_prov_handoff_no_credentials,
  app_prov_handle_gesture,
}

-- A provisioner that MCUboot can launch: its partition opens, and its image loads and validates.
pub record IsBootable {S : Type 0} (f : FlashMap S) (b : Bootutil S) (s : S) : Type 0 where
  pub opens : succeeded (f.open_area s prov) ≡ true
  pub header : succeeded (b.load_header s).0 ≡ true
  pub areas : succeeded (b.open_all_flash_areas s) ≡ true
  pub sectors : succeeded (b.read_sectors s) ≡ true
  pub valid : b.img_validate s ≡ true

-- What a request that was made means at the next boot.
pub record Hands {S : Type 0} (f : FlashMap S) (b : Bootutil S) (s : S) (reason : Reason)
    : Type 0 where
  pub launches : (h : HookState) (rsp : BootRsp) → (boot_go_hook f b s h rsp).0 ≡ fih_success
  pub reads_reason : boot_request_read f s ≡ (pos 0, request_for boot_request_provisioner reason)

request_provisioner-Hands :
    {S : Type 0} (f : FlashMap S) (b : Bootutil S) (s : S) (reason : Reason)
    → IsFlashMap f
    → (request_provisioner f s reason).0 ≡ true
    → Reads f (request_provisioner f s reason).1
    → IsBootable f b (request_provisioner f s reason).1
    → Hands f b (request_provisioner f s reason).1 reason
unfolding request_provisioner
request_provisioner-Hands f b s reason laws asked r k =
    elim (Bool-cases (boot_request_provisioner_present f s)) [
      | inr absent ↦ ground arith
      | inl present ↦
          let d : succeeded (boot_request_set f s boot_request_provisioner reason).0 ≡ true =
            rw present at asked in
          let r' : Reads f (boot_request_set f s boot_request_provisioner reason).1 =
            rw present at r in
          let k' : IsBootable f b (boot_request_set f s boot_request_provisioner reason).1 =
            rw present at k in
          let q =
            boot_request_read-boot_request_set f s boot_request_provisioner reason laws
              (omega arith) d r' in
          rw present (record {
            launches = λ h rsp. (boot_go_hook_success_iff f b _ h rsp).1 (record {
              requested = q.1;
              opens = k'.opens;
              header = k'.header;
              areas = k'.areas;
              sectors = k'.sectors;
              valid = k'.valid;
            });
            reads_reason = q.0;
          })
    ]

-- An application without credentials that reboots hands over: MCUboot then launches the
-- provisioner, which reads no-credentials as the reason. The flash map behaves as documented,
-- the record's partition opens and reads, and the provisioner's image opens, loads and
-- validates.
pub app_prov_handoff_no_credentials-Hands :
    {S : Type 0} (f : FlashMap S) (b : Bootutil S) (s : S)
    → IsFlashMap f
    → (app_prov_handoff_no_credentials f s).0 ≡ rebooted
    → Reads f (app_prov_handoff_no_credentials f s).1
    → IsBootable f b (app_prov_handoff_no_credentials f s).1
    → Hands f b (app_prov_handoff_no_credentials f s).1 no_credentials
unfolding app_prov_handoff_no_credentials
app_prov_handoff_no_credentials-Hands f b s laws out r k =
    elim (Bool-cases (request_provisioner f s no_credentials).0) [
      | inl asked ↦ rw asked (
          request_provisioner-Hands f b s no_credentials laws asked (rw asked at r) (rw asked at k))
      | inr refused ↦ ground arith
    ]

-- Without a provisioner in flash, before and after the credentials are erased, nothing but the
-- erase reboots, and no gesture and no lack of credentials changes the flash, but for the erase
-- of the credentials.
pub app_prov_handle_gesture_absent :
    {S : Type 0} (f : FlashMap S) (w : WifiCredentials S) (s : S) (g : Gesture)
    → boot_request_provisioner_present f s ≡ false
    → boot_request_provisioner_present f (w.delete_all s) ≡ false
    → (app_prov_handoff_no_credentials f s ≡ (returned, s))
      × ((app_prov_handle_gesture f w s g ≡ (returned, s))
          ⊎ ((g ≡ erase) × (app_prov_handle_gesture f w s g ≡ (rebooted, w.delete_all s))))
unfolding app_prov_handoff_no_credentials app_prov_handle_gesture request_provisioner
app_prov_handle_gesture_absent f w s g absent gone = (rw absent refl, by_gesture g)
  where
    by_gesture :
        (g : Gesture)
        → (app_prov_handle_gesture f w s g ≡ (returned, s))
          ⊎ ((g ≡ erase) × (app_prov_handle_gesture f w s g ≡ (rebooted, w.delete_all s)))
    by_gesture gesture_none = inl refl
    by_gesture provision = inl (rw absent refl)
    by_gesture erase_armed = inl refl
    by_gesture erase = inr (refl, rw gone refl)
    by_gesture identify = inl refl
