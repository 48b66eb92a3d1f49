-- ===== src/Tests/Ztp.antt =====
-- Zero-touch provisioning on small times, texts and manifests.
use microcontroller_devices.Prelude.{ℕ, ◌<◌}
use microcontroller_devices.Prelude.{leb, if◌then◌else◌}
use microcontroller_devices.Prelude.{◌≡◌, refl, arith}
use microcontroller_devices.Prelude.{true, false, ◌&&◌, not}
use microcontroller_devices.Prelude.{none, some, List, [], ◌∷◌}
use microcontroller_devices.Prelude.{length, All}
use microcontroller_devices.Prelude.Int.{pos}
use microcontroller_devices.Prelude.Text.{codes, text_eq, split_first, free_of, free_of-Without}
use microcontroller_devices.Ztp.Errors.{enodata, is_ok}
use microcontroller_devices.Ztp.Time.{ztp_format_rfc3339, ztp_parse_rfc3339}
use microcontroller_devices.Ztp.Time.NextDay.{days_of, date_after, days_of-date_after}
use microcontroller_devices.Ztp.Time.RoundTrip.{ztp_parse_rfc3339-ztp_format_rfc3339}
use microcontroller_devices.Ztp.Manifest.{
  Kv, strip_cr, first_line, kv_of, Status, Module, clear, records_of, status_of, is_unknown,
  ztp_slice_eq, ztp_response_parse, ztp_manifest_header,
}
use microcontroller_devices.Ztp.Manifest.Lines.{IsLine, line_of, text_of, records_of-text_of}
use microcontroller_devices.Ztp.Manifest.Enroll.{last_value, map_or, ztp_response_parse-last_value}
use microcontroller_devices.Ztp.Manifest.Modules.{IsField, kv_of_module}
use microcontroller_devices.Ztp.Apply.Staging.{
  Platform, module_payload, stage, reset_all, no_flags, header_ok, stage_loop, wifi_v2,
  find_applier, stage_module, ztp_apply_manifest,
}
use microcontroller_devices.Ztp.Apply.Ini.{ini_walk, ini_loop, line_kind}
use microcontroller_devices.Ztp.Apply.Wifi.{wifi_stage, wifi_close_section}
use microcontroller_devices.Ztp.Apply.Atomic.{Committed, ztp_apply_manifest-Committed}
use microcontroller_devices.Ztp.Apply.Runs.{Stages, stage_loop-Stages}
use microcontroller_devices.Ztp.Apply.Scrubbed.{ztp_apply_manifest_scrubs}
use microcontroller_devices.Ztp.Apply.Printed.{records, IsModule, apply_refused}
use microcontroller_devices.Ztp.Frame.{}
use microcontroller_devices.Ztp.Session.{}

ztp_parse_rfc3339-ztp_format_rfc3339_example :
    ztp_parse_rfc3339 (ztp_format_rfc3339 (pos 1709164800)) ≡ some (pos 1709164800)
ztp_parse_rfc3339-ztp_format_rfc3339_example =
    ztp_parse_rfc3339-ztp_format_rfc3339 1709164800 (omega arith)

days_of-date_after_example : days_of (date_after 60) ≡ pos 60
days_of-date_after_example = days_of-date_after 60

abbrev status_kv : Kv
status_kv = record { key = codes "status"; val = codes "pending" }

checked-IsLine :
    (kv : Kv)
    → free_of 61 kv.key ≡ true
    → free_of 10 (line_of kv) ≡ true
    → strip_cr (line_of kv) ≡ line_of kv
    → IsLine kv
checked-IsLine kv a b c = record {
  key_ok = free_of-Without 61 kv.key a;
  one_line = free_of-Without 10 (line_of kv) b;
  no_cr = c;
}

status_kv-IsLine : IsLine status_kv
unfolding strip_cr
status_kv-IsLine = checked-IsLine status_kv refl refl refl

records_of-text_of_example : records_of (text_of (status_kv ∷ [])) ≡ status_kv ∷ []
records_of-text_of_example = records_of-text_of (status_kv ∷ []) (status_kv-IsLine, tt)

ztp_response_parse-last_value_example :
    let buf = codes "status=pending" in
    let (ok, r) = ztp_response_parse buf in
    let last = λ (key : List ℕ). last_value key (records_of buf) in
    (r.status ≡ map_or status_of Status.unknown (last (codes "status")))
    × (r.reason ≡ map_or (λ v. v) [] (last (codes "reason")))
    × (r.manifest ≡ map_or (λ v. v) [] (last (codes "manifest.payload")))
    × (ok ≡ (
        map_or (λ v. ztp_slice_eq v (codes "1")) false (last (codes "protocol_version"))
        && not (is_unknown r.status)))
ztp_response_parse-last_value_example = ztp_response_parse-last_value (codes "status=pending")

-- A module without a network, and one of another applier.
abbrev empty_wifi : Module
empty_wifi = clear (codes "wifi.v2") (codes "QQ")

abbrev tenant : Module
tenant = clear (codes "c8y.v2") (codes "Qg")

checked-IsField : (f : List ℕ) → 0 < length f → free_of 32 f ≡ true → IsField f
checked-IsField f h k = record { nonempty = h; no_space = free_of-Without 32 f k }

empty_wifi-IsModule : IsModule empty_wifi
unfolding strip_cr
empty_wifi-IsModule = record {
  one_line = checked-IsLine (kv_of_module empty_wifi) refl refl refl;
  fields = (
    checked-IsField (codes "wifi.v2") (omega arith) refl,
    (checked-IsField (codes "QQ") (omega arith) refl, tt),
  );
}

tenant-IsModule : IsModule tenant
unfolding strip_cr
tenant-IsModule = record {
  one_line = checked-IsLine (kv_of_module tenant) refl refl refl;
  fields = (
    checked-IsField (codes "c8y.v2") (omega arith) refl,
    (checked-IsField (codes "Qg") (omega arith) refl, tt),
  );
}

-- Texts that decode to themselves, and a network that is joined.
abbrev pub platform : Platform
platform = record {
  base64_decode = λ n s. if leb (length s) n then some s else none;
  ztp_open = λ eph nonce ct n. (none, ct);
  try_credentials = λ w. true;
  set_personal = λ w. none;
  c8y_store = λ c. none;
}

abbrev home_manifest : List ℕ
home_manifest = text_of (records platform (codes "d1") (tenant ∷ empty_wifi ∷ []))

stage_loop-Stages_example :
    Stages platform home_manifest reset_all no_flags
      (stage_loop platform (length home_manifest) home_manifest reset_all no_flags)
stage_loop-Stages_example =
    stage_loop-Stages platform (length home_manifest) home_manifest reset_all no_flags (omega arith)

ztp_apply_manifest-Committed_example :
    let (rc, left, fx) = ztp_apply_manifest platform home_manifest (codes "d1") reset_all in
    Committed platform rc fx
ztp_apply_manifest-Committed_example =
    ztp_apply_manifest-Committed platform home_manifest (codes "d1") reset_all

ztp_apply_manifest_scrubs_example :
    let (rc, left, fx) = ztp_apply_manifest platform home_manifest (codes "d1") reset_all in
    left ≡ (
      if header_ok platform (ztp_manifest_header home_manifest) (codes "d1")
      then reset_all
      else reset_all)
ztp_apply_manifest_scrubs_example =
    ztp_apply_manifest_scrubs platform home_manifest (codes "d1") reset_all

home_lines : All IsLine (records platform (codes "d1") (tenant ∷ empty_wifi ∷ []))
unfolding strip_cr
home_lines = (
  checked-IsLine (record { key = codes "device_id"; val = codes "d1" }) refl refl refl,
  (
    checked-IsLine (record { key = codes "protocol_version"; val = codes "1" }) refl refl refl,
    (tenant-IsModule.one_line, (empty_wifi-IsModule.one_line, tt)),
  ),
)

empty_wifi_applier : find_applier (codes "wifi.v2") ≡ some wifi_v2
unfolding find_applier ztp_slice_eq text_eq
empty_wifi_applier = refl

empty_wifi_refused : (stage_module platform wifi_v2 empty_wifi reset_all).0 ≡ some enodata
unfolding stage_module module_payload stage wifi_stage ini_walk ini_loop first_line split_first
    strip_cr line_kind kv_of wifi_close_section
empty_wifi_refused = refl

apply_refused_example :
    let (rc, left, fx) = ztp_apply_manifest platform home_manifest (codes "d1") reset_all in
    (fx ≡ []) × (is_ok rc ≡ false)
apply_refused_example =
    apply_refused platform (codes "d1") (tenant ∷ []) empty_wifi [] wifi_v2 enodata reset_all
      home_lines (tenant-IsModule, (empty_wifi-IsModule, tt)) empty_wifi_applier empty_wifi_refused
