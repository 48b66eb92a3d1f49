-- ===== src/Ztp/Session.antt =====
-- The session of apps/wifi-provisioner/src/ztp.c: the handlers of the messages, the advertising and the loop of `ztp_run`.
pub mod Window
pub mod Restart
pub mod Stall
use microcontroller_devices.Prelude.{ℕ, zero, suc, ◌+◌, ◌-◌, ◌*◌, ◌/◌, ◌%◌, ◌^◌, ◌≤◌, ◌<◌}
use microcontroller_devices.Prelude.{ltb, leb, ◌==◌, if◌then◌else◌, ltb→lt, lt→ltb, leb→le, ==_iff}
use microcontroller_devices.Prelude.{◌≡◌, ◌≢◌, refl, sym, ap, ap₂, ◌∙◌, arith, ◌⊎◌, inl, inr, ◌↔◌}
use microcontroller_devices.Prelude.{Bool, true, false, ◌&&◌, ◌||◌, not, Bool-cases, Option-cases}
use microcontroller_devices.Prelude.{
  Option, none, some, List, [], ◌∷◌, ◌++◌, append-nil, append_assoc,
}
use microcontroller_devices.Prelude.{reverse, length, length-append, take, drop, All, All-append}
use microcontroller_devices.Prelude.{get_elem?, get_or, set, length-set}
use microcontroller_devices.Prelude.Int.{ℤ, pos, negsuc}
use microcontroller_devices.Ztp.Errors.{Errno, eproto, eagain, enotsup, Rc, is_ok}
use microcontroller_devices.Ztp.Manifest.{Status, Response, ztp_response_parse}
use microcontroller_devices.Ztp.Apply.Staging.{Platform, Effect, Staged, ztp_apply_manifest}
use microcontroller_devices.Ztp.Frame.{
  Msg, msg_kick, msg_response, msg_overflow, msg_button, Rx, post, write_request, release_rx,
  rx_disconnected, Clock, clock_set, write_timesync, Attempt, send_message,
}

-- `enum ztp_status_byte`.
pub data StatusByte : Type 0 where
  st_idle : StatusByte
  st_relaying : StatusByte
  st_done : StatusByte
  st_error : StatusByte

-- The configuration: the size of `rx_buf`, the window in seconds, whether a server key is pinned.
pub record ZtpConfig : Type 0 where
  pub rx_bytes : ℕ
  pub window_s : ℕ
  pub pinned : Bool
  pub return_on_expiry : Bool
  pub device_id : List ℕ

-- The static objects of the file and the variables of `ztp_run`. `linked` is that `cur_conn` is
-- set, `rebooting` that `reboot_now` has been called; `effects` and `sent` are what was committed
-- and notified.
pub record Session : Type 0 where
  pub rx : Rx
  pub clock : Clock
  pub status : StatusByte
  pub staged : Staged
  pub effects : List Effect
  pub sent : List (List ℕ)
  pub idle : Bool
  pub deadline : ℕ
  pub adv_wanted : Bool
  pub adv_running : Bool
  pub linked : Bool
  pub rebooting : Bool

-- What the outside answers in a turn of the loop: the time, the envelope that was built, the MTU
-- and the notifications, the start of the advertising, and `app_wifi_creds_resolve`.
pub record Answers : Type 0 where
  pub uptime : ℕ
  pub envelope : Option (List ℕ)
  pub mtu : ℕ
  pub attempts : ℕ → Attempt
  pub adv_starts : Bool
  pub creds_resolve : Bool

unfoldable pub adv_start : Bool → Session → Session
adv_start starts s =
    if not s.adv_wanted || s.adv_running || s.linked then s else record s { adv_running = starts }

unfoldable pub adv_stop : Session → Session
adv_stop s = record s { adv_wanted = false; adv_running = false }

-- `on_connected` without an error, and `on_disconnected` of that connection.
unfoldable pub on_connected : Session → Session
on_connected s = record s { adv_running = false; linked = true }

unfoldable pub on_disconnected : Session → Session
on_disconnected s = record s { linked = false; rx = rx_disconnected s.rx }

abbrev pub mtu_if : Bool → ℕ → Option ℕ
mtu_if true mtu = some mtu
mtu_if false mtu = none

abbrev pub is_accepted : Status → Bool
is_accepted Status.accepted = true
is_accepted _ = false

abbrev pub is_zero : ℤ → Bool
is_zero (pos n) = n == 0
is_zero (negsuc n) = false

abbrev pub synced : ℤ → ℕ → Clock → Clock
synced t uptime c = if is_zero t then c else clock_set t uptime

module _ (p : Platform) (cfg : ZtpConfig) where
  abbrev pub decoded : Option (List ℕ) → Staged → Rc × Staged × List Effect
  decoded none s = (some eproto, s, [])
  decoded (some manifest) s = ztp_apply_manifest p manifest cfg.device_id s

  -- The part of `handle_response` behind the clock.
  unfoldable pub apply_response : Response → Staged → Rc × Staged × List Effect
  apply_response r s =
      if not (is_accepted r.status)
      then (some eagain, s, [])
      else if length r.manifest == 0
      then (some eproto, s, [])
      else if cfg.pinned
      then (some enotsup, s, [])
      else decoded (p.base64_decode (cfg.rx_bytes * 3 / 4 + 3) r.manifest) s

  unfoldable pub handle_response : List ℕ → ℕ → Clock → Staged → Rc × Clock × Staged × List Effect
  handle_response buf uptime clock staged =
      let (ok, r) = ztp_response_parse buf in
      if ok
      then (let (rc, staged, fx) = apply_response r staged in
          (rc, synced r.server_time uptime clock, staged, fx))
      else (some eproto, clock, staged, [])

  abbrev pub send_envelope : Option (List ℕ) → Answers → Session → Session
  send_envelope none a s = record s { status = st_error }
  send_envelope (some envelope) a s =
      let (rc, out) = send_message (mtu_if s.linked a.mtu) a.attempts envelope in
      record s { status = if is_ok rc then st_done else st_error; sent = s.sent ++ out }

  unfoldable pub handle_kick : Answers → Session → Session
  handle_kick a s =
      send_envelope a.envelope a (record s { rx = release_rx s.rx; status = st_relaying })

  -- The case MSG_RESPONSE of the loop.
  abbrev pub responded : Answers → Session → Rc × Clock × Staged × List Effect → Session
  responded a s (some e, clock, staged, fx) = record s {
    rx = release_rx s.rx;
    clock = clock;
    staged = staged;
    effects = s.effects ++ fx;
    status = st_error;
  }
  responded a s (none, clock, staged, fx) =
      let (rc, out) = send_message (mtu_if s.linked a.mtu) a.attempts [] in
      adv_stop (record s {
        rx = release_rx s.rx;
        clock = clock;
        staged = staged;
        effects = s.effects ++ fx;
        status = st_done;
        sent = s.sent ++ out;
        rebooting = true;
      })

  unfoldable pub on_message : Msg → Answers → Session → Session
  on_message msg_kick a s = if s.idle then record s { rx = release_rx s.rx } else handle_kick a s
  on_message msg_overflow a s = record s { rx = release_rx s.rx; status = st_error }
  on_message msg_response a s =
      responded a s (handle_response s.rx.rx_buf a.uptime s.clock s.staged)
  on_message msg_button a s =
      if s.idle
      then adv_start a.adv_starts
          (record s { idle = false; deadline = a.uptime + cfg.window_s * 1000; adv_wanted = true })
      else s

  -- The part of the loop behind an empty queue.
  unfoldable pub on_timeout : Answers → Session → Session
  on_timeout a s =
      if not s.idle && leb s.deadline a.uptime
      then (if cfg.return_on_expiry || a.creds_resolve
          then record s { rebooting = true }
          else record (adv_stop s) { idle = true })
      else s

  abbrev pub take_message : List Msg → Answers → Session → Session
  take_message [] a s = on_timeout a s
  take_message (m ∷ q) a s = on_message m a (record s { rx = record s.rx { queue = q } })

  -- One turn of the loop.
  unfoldable pub turn : Answers → Session → Session
  turn a s = take_message s.rx.queue a s

  -- What can happen between two turns, or be one.
  pub data Event : Type 0 where
    turned : Answers → Event
    wrote : List ℕ → ℕ → Bool → Event
    synced_time : ℕ → List ℕ → ℕ → Event
    connected : Event
    disconnected : Event
    recycled : Bool → Event
    pressed : Event

  unfoldable pub step : Event → Session → Session
  step (turned a) s = turn a s
  step (wrote buf offset prepare) s = record s {
    rx = (write_request cfg.rx_bytes s.rx buf offset prepare).1;
  }
  step (synced_time uptime buf offset) s = record s {
    clock = (write_timesync s.clock uptime buf offset).1;
  }
  step connected s = on_connected s
  step disconnected s = on_disconnected s
  step (recycled starts) s = adv_start starts s
  step pressed s = record s { rx = post msg_button s.rx }

  abbrev pub run : List Event → Session → Session
  run [] s = s
  run (e ∷ es) s = run es (step e s)
