-- ===== src/Tests/ZtpSession.antt =====
-- The framing and the session of zero-touch provisioning on short messages.
use microcontroller_devices.Prelude.{ℕ}
use microcontroller_devices.Prelude.{◌==◌, if◌then◌else◌}
use microcontroller_devices.Prelude.{◌≡◌, refl, arith, inl}
use microcontroller_devices.Prelude.{true, false}
use microcontroller_devices.Prelude.{none, some, List, [], ◌∷◌, ◌++◌}
use microcontroller_devices.Prelude.{get_or}
use microcontroller_devices.Prelude.Int.{pos}
use microcontroller_devices.Prelude.Text.{codes, text_eq, split_first}
use microcontroller_devices.Ztp.Errors.{is_ok}
use microcontroller_devices.Ztp.Manifest.{
  strip_cr, first_line, kv_of, kv_list, ztp_kv_next, kv_loop, response_kv, header_kv, next_field,
  module_loop, status_of, ztp_slice_eq, ztp_response_parse, ztp_manifest_next_module,
  ztp_manifest_header,
}
use microcontroller_devices.Ztp.Apply.Staging.{
  Platform, module_payload, stage, mark, commit_all, c8y_commit, reset_all, stage_loop,
  find_applier, stage_module, ztp_apply_manifest,
}
use microcontroller_devices.Ztp.Apply.Ini.{ini_walk, ini_loop, line_kind, copy_val}
use microcontroller_devices.Ztp.Apply.C8y.{c8y_stage, c8y_ini, c8y_kv}
use microcontroller_devices.Ztp.Frame.{
  Msg, msg_button, Attempt, returned, put_be16, frames, pieces, send_frames, notify_retry,
  send_message, Clock,
}
use microcontroller_devices.Ztp.Frame.Reassembly.{write_all, waiting, received}
use microcontroller_devices.Ztp.Session.Stall.{IsStalled, full_queue_stalls}
use microcontroller_devices.Ztp.Frame.Sending.{send_message_arrives}
use microcontroller_devices.Ztp.Session.{
  ZtpConfig, Session, Answers, st_idle, turned, wrote, connected, disconnected, recycled, pressed,
  turn, on_timeout, run, is_accepted, handle_response, apply_response,
}
use microcontroller_devices.Ztp.Session.Window.{IsQuiet, run-IsQuiet}
use microcontroller_devices.Ztp.Session.Restart.{Restarts, turn-Restarts, handle_response_accepted}
use microcontroller_devices.Tests.Ztp.{platform}

abbrev notified : ℕ → Attempt
notified t = returned none

all_sent : is_ok (send_message (some 23) notified (codes "hello, this is a message")).0 ≡ true
unfolding send_message send_frames notify_retry frames pieces
all_sent = refl

send_message_arrives_example :
    write_all 1024
      (waiting [])
      (send_message (some 23) notified (codes "hello, this is a message")).1
    ≡ received (codes "hello, this is a message") []
send_message_arrives_example =
    send_message_arrives 1024 23 notified (codes "hello, this is a message") [] (omega arith)
      (omega arith) (omega arith) all_sent

abbrev four_presses : List Msg
four_presses = msg_button ∷ msg_button ∷ msg_button ∷ msg_button ∷ []

abbrev config : ZtpConfig
config = record {
  rx_bytes = 1024;
  window_s = 300;
  pinned = false;
  return_on_expiry = true;
  device_id = codes "d1";
}

abbrev advertising : Session
advertising = record {
  rx = waiting [];
  clock = record { offset_s = pos 0; known = false };
  status = st_idle;
  staged = reset_all;
  effects = [];
  sent = [];
  idle = false;
  deadline = 300000;
  adv_wanted = true;
  adv_running = true;
  linked = false;
  rebooting = false;
}

abbrev late : Answers
late = record {
  uptime = 300001;
  envelope = none;
  mtu = 23;
  attempts = notified;
  adv_starts = true;
  creds_resolve = false;
}

run-IsQuiet_example : IsQuiet (
    run platform config
      (connected ∷ disconnected ∷ turned late ∷ recycled true ∷ pressed ∷ [])
      advertising)
run-IsQuiet_example =
    run-IsQuiet platform config
      (connected ∷ disconnected ∷ turned late ∷ recycled true ∷ pressed ∷ []) advertising
      (record { idle_off = λ e. cc; running_wanted = λ _. refl; linked_off = λ e. cc })

-- The fragments of a response are in, and four presses are queued.
abbrev response_written : Session
response_written = record advertising {
  rx = record (waiting four_presses) { rx_buf = codes "protocol_version=1" };
}

full_queue_stalls_example : IsStalled [] [] (
    run platform config
      (wrote (put_be16 0) 0 false
        ∷ turned late
        ∷ disconnected
        ∷ connected
        ∷ wrote (put_be16 0) 0 false
        ∷ [])
      response_written)
full_queue_stalls_example =
    full_queue_stalls platform config response_written
      (turned late ∷ disconnected ∷ connected ∷ wrote (put_be16 0) 0 false ∷ []) refl (omega arith)
      (refl, (refl, (refl, (refl, tt))))

late_restarts : (turn platform config late advertising).rebooting ≡ true
unfolding turn on_timeout
late_restarts = refl

turn-Restarts_example : Restarts platform config late advertising
turn-Restarts_example = turn-Restarts platform config late advertising refl late_restarts

-- A response whose manifest has one module, the Cumulocity settings.
abbrev line_feed : List ℕ
line_feed = 10 ∷ []

abbrev c8y_manifest : List ℕ
c8y_manifest =
    codes "device_id=d1"
    ++ line_feed
    ++ codes "protocol_version=1"
    ++ line_feed
    ++ codes "module=c8y.v2 P"

abbrev decode : List ℕ → List ℕ
decode s =
    if get_or s 0 0 == 77
    then c8y_manifest
    else codes "[c8y]" ++ line_feed ++ codes "url=example.com"

abbrev decoding : Platform
decoding = record platform { base64_decode = λ n s. some (decode s) }

abbrev response : List ℕ
response =
    codes "protocol_version=1"
    ++ line_feed
    ++ codes "status=accepted"
    ++ line_feed
    ++ codes "manifest.payload=M"

abbrev no_clock : Clock
no_clock = record { offset_s = pos 0; known = false }

response_applied : is_ok (handle_response decoding config response 5000 no_clock reset_all).0 ≡ true
unfolding handle_response apply_response ztp_response_parse response_kv status_of header_kv
    ztp_manifest_header kv_list ztp_kv_next kv_loop kv_of split_first strip_cr first_line
    ztp_slice_eq text_eq ztp_apply_manifest stage_loop stage_module module_payload stage mark
    find_applier commit_all c8y_commit c8y_stage c8y_ini c8y_kv copy_val ini_walk ini_loop line_kind
    next_field module_loop ztp_manifest_next_module
response_applied = refl

handle_response_accepted_example :
    ((ztp_response_parse response).0 ≡ true)
    × (is_accepted (ztp_response_parse response).1.status ≡ true)
    × (false ≡ false)
handle_response_accepted_example =
    handle_response_accepted decoding config response 5000 no_clock reset_all (inl response_applied)
