-- ===== src/Boot/Handoff.antt =====
-- lib/common/prov_handoff.c: the application's way into the provisioner.
pub mod Reboot
use microcontroller_devices.Prelude.{ℕ, zero, suc, ◌+◌, ◌-◌, ◌*◌, ◌/◌, ◌%◌, ◌^◌, ◌≤◌, ◌<◌}
use microcontroller_devices.Prelude.{ltb, leb, ◌==◌, if◌then◌else◌, ltb→lt, lt→ltb, leb→le, ==_iff}
use microcontroller_devices.Prelude.{◌≡◌, ◌≢◌, refl, sym, ap, ap₂, ◌∙◌, arith, ◌⊎◌, inl, inr, ◌↔◌}
use microcontroller_devices.Prelude.{Bool, true, false, ◌&&◌, ◌||◌, not, Bool-cases, Option-cases}
use microcontroller_devices.Prelude.{
  Option, none, some, List, [], ◌∷◌, ◌++◌, append-nil, append_assoc,
}
use microcontroller_devices.Prelude.{reverse, length, length-append, take, drop, All, All-append}
use microcontroller_devices.Prelude.{get_elem?, get_or, set, length-set}
use microcontroller_devices.Prelude.Int.{ℤ, pos, negsuc}
use microcontroller_devices.Button.Gesture.{
  Gesture, gesture_none, provision, erase_armed, erase, identify,
}
use microcontroller_devices.Boot.Request.{
  FlashMap, Reason, no_credentials, operator, succeeded, boot_request_set,
  boot_request_provisioner_present, boot_request_provisioner,
}

-- Set the boot request, if there is an image to hand over to.
unfoldable pub request_provisioner : {S : Type 0} → FlashMap S → S → Reason → Bool × S
request_provisioner f s reason =
    let (rc, s') = boot_request_set f s boot_request_provisioner reason in
    if not (boot_request_provisioner_present f s) then (false, s) else (succeeded rc, s')

-- How a handler ends: it returns, or it reboots.
pub data Outcome : Type 0 where
  returned : Outcome
  rebooted : Outcome

unfoldable pub app_prov_handoff_no_credentials : {S : Type 0} → FlashMap S → S → Outcome × S
app_prov_handoff_no_credentials f s =
    let (asked, s') = request_provisioner f s no_credentials in
    if asked then (rebooted, s') else (returned, s')

-- The stored Wi-Fi credentials: what `wifi_credentials_delete_all` leaves, and whether
-- `app_wifi_creds_resolve` finds credentials.
pub record WifiCredentials (S : Type 0) : Type 0 where
  pub delete_all : S → S
  pub resolve : S → Bool

unfoldable pub app_prov_handle_gesture :
    {S : Type 0} → FlashMap S → WifiCredentials S → S → Gesture → Outcome × S
app_prov_handle_gesture f w s provision =
    let (asked, s') = request_provisioner f s operator in
    if asked then (rebooted, s') else (returned, s')
app_prov_handle_gesture f w s erase_armed = (returned, s)
app_prov_handle_gesture f w s erase =
    let erased = w.delete_all s in
    let reason : Reason = if w.resolve erased then operator else no_credentials in
    (rebooted, (request_provisioner f erased reason).1)
app_prov_handle_gesture f w s gesture_none = (returned, s)
app_prov_handle_gesture f w s identify = (returned, s)
