-- ===== src/Snmp/Trap.antt =====
-- lib/snmp/snmp_trap.c: the notifications and the watcher that sends them.
pub mod Message
pub mod Links
pub mod Watcher
use microcontroller_devices.Prelude.{ℕ, zero, suc, ◌+◌, ◌-◌, ◌*◌, ◌/◌, ◌%◌, ◌^◌, ◌≤◌, ◌<◌}
use microcontroller_devices.Prelude.{ltb, leb, ◌==◌, if◌then◌else◌, ltb→lt, lt→ltb, leb→le, ==_iff}
use microcontroller_devices.Prelude.{◌≡◌, ◌≢◌, refl, sym, ap, ap₂, ◌∙◌, arith, ◌⊎◌, inl, inr, ◌↔◌}
use microcontroller_devices.Prelude.{Bool, true, false, ◌&&◌, ◌||◌, not, Bool-cases, Option-cases}
use microcontroller_devices.Prelude.{
  Option, none, some, List, [], ◌∷◌, ◌++◌, append-nil, append_assoc,
}
use microcontroller_devices.Prelude.{reverse, length, length-append, take, drop, All, All-append}
use microcontroller_devices.Prelude.{get_elem?, get_or, set, length-set}
use microcontroller_devices.Device.SimSwitch.{
  SimSwitch, SimIfStatus, up, down, is_up, sim_switch_if_count, sim_switch_if_oper_status,
}
use microcontroller_devices.Snmp.Ber.Encoder.{
  BerEnc, ber_enc_init, ber_enc_length, ber_wrap, ber_put_int, ber_put_octet_str, ber_put_oid,
  ber_put_uint_tagged, tag_sequence, tag_timeticks,
}
use microcontroller_devices.Snmp.Ber.Encoder.Buffer.{window}

abbrev pub snmp_pdu_trap_v2 : ℕ
snmp_pdu_trap_v2 = 0xA7

abbrev pub trap_buf_size : ℕ
trap_buf_size = 512

abbrev pub oid_sysuptime : List ℕ
oid_sysuptime = 1 ∷ 3 ∷ 6 ∷ 1 ∷ 2 ∷ 1 ∷ 1 ∷ 3 ∷ 0 ∷ []

abbrev pub oid_trapoid : List ℕ
oid_trapoid = 1 ∷ 3 ∷ 6 ∷ 1 ∷ 6 ∷ 3 ∷ 1 ∷ 1 ∷ 4 ∷ 1 ∷ 0 ∷ []

abbrev pub oid_ifindex_col : List ℕ
oid_ifindex_col = 1 ∷ 3 ∷ 6 ∷ 1 ∷ 2 ∷ 1 ∷ 2 ∷ 2 ∷ 1 ∷ 1 ∷ []

-- `oid_coldstart`, `oid_linkdown` and `oid_linkup`.
pub data Notification : Type 0 where
  cold_start : Notification
  link_down : Notification
  link_up : Notification

abbrev pub notification_oid : Notification → List ℕ
notification_oid cold_start = 1 ∷ 3 ∷ 6 ∷ 1 ∷ 6 ∷ 3 ∷ 1 ∷ 1 ∷ 5 ∷ 1 ∷ []
notification_oid link_down = 1 ∷ 3 ∷ 6 ∷ 1 ∷ 6 ∷ 3 ∷ 1 ∷ 1 ∷ 5 ∷ 3 ∷ []
notification_oid link_up = 1 ∷ 3 ∷ 6 ∷ 1 ∷ 6 ∷ 3 ∷ 1 ∷ 1 ∷ 5 ∷ 4 ∷ []

unfoldable pub vb_oid : BerEnc → List ℕ → List ℕ → BerEnc
vb_oid e name val = ber_wrap (ber_put_oid (ber_put_oid e val) name) e.pos tag_sequence

unfoldable pub vb_timeticks : BerEnc → List ℕ → ℕ → BerEnc
vb_timeticks e name ticks =
    ber_wrap (ber_put_oid (ber_put_uint_tagged e ticks tag_timeticks) name) e.pos tag_sequence

unfoldable pub vb_int : BerEnc → List ℕ → ℕ → BerEnc
vb_int e name v = ber_wrap (ber_put_oid (ber_put_int e v) name) e.pos tag_sequence

-- The varbind of the interface, for an index above 0.
abbrev pub vb_ifindex : BerEnc → ℕ → BerEnc
vb_ifindex e zero = e
vb_ifindex e (suc i) = vb_int e (oid_ifindex_col ++ (suc i ∷ [])) (suc i)

-- The message that `send_trap` builds; `ticks` is `mib_sys_uptime()`.
unfoldable pub encode_trap : BerEnc → List ℕ → ℕ → ℕ → List ℕ → ℕ → BerEnc
encode_trap e community ticks request_id trap_oid ifindex =
    let vbs =
      vb_timeticks (vb_oid (vb_ifindex e ifindex) oid_trapoid trap_oid) oid_sysuptime ticks in
    let list = ber_wrap vbs e.pos tag_sequence in
    let fields = ber_put_int (ber_put_int (ber_put_int list 0) 0) request_id in
    let pdu = ber_wrap fields e.pos snmp_pdu_trap_v2 in
    ber_wrap (ber_put_int (ber_put_octet_str pdu community) 1) e.pos tag_sequence

-- The file's state: `trap_sock >= 0`, `mgr_resolved`, `coldstart_pending`, `trap_request_id` as a
-- 32-bit pattern and `last_oper`; `sent` is what `sendto` took, the last one first.
pub record Trap : Type 0 where
  pub socket : Bool
  pub mgr_resolved : Bool
  pub coldstart_pending : Bool
  pub trap_request_id : ℕ
  pub last_oper : List SimIfStatus
  pub sent : List (Notification × ℕ × List ℕ)

-- What a tick finds outside: the buffer's bytes, CONFIG_APP_SNMP_TRAP_COMMUNITY, the uptime in
-- ticks, whether the manager can be resolved, and whether `sendto` takes the message with that
-- request id.
pub record TrapEnv : Type 0 where
  pub buf : ℕ → ℕ
  pub community : List ℕ
  pub ticks : ℕ
  pub resolves : Bool
  pub delivers : ℕ → Bool

abbrev pub next_id : ℕ → ℕ
next_id id = (id + 1) % 2 ^ 32

module _ (env : TrapEnv) where
  abbrev pub packet : BerEnc → List ℕ
  packet e = window e.base (trap_buf_size - ber_enc_length e) (ber_enc_length e)

  unfoldable pub send_trap : Notification → ℕ → Trap → Trap
  send_trap n ifindex t =
      if not t.socket || not t.mgr_resolved
      then t
      else (let id = next_id t.trap_request_id in
          let e =
            encode_trap (ber_enc_init env.buf trap_buf_size) env.community env.ticks id
              (notification_oid n) ifindex in
          if ber_enc_length e == 0
          then record t { trap_request_id = id }
          else if env.delivers id
          then record t { trap_request_id = id; sent = (n, ifindex, packet e) ∷ t.sent }
          else record t { trap_request_id = id; mgr_resolved = false })

  unfoldable pub resolve_if_needed : Trap → Trap
  resolve_if_needed t = if t.mgr_resolved then t else record t { mgr_resolved = env.resolves }

  unfoldable pub send_deferred : Trap → Trap
  send_deferred t =
      if t.mgr_resolved && t.coldstart_pending
      then send_trap cold_start 0 (record t { coldstart_pending = false })
      else t

  abbrev pub link_notification : SimIfStatus → Notification
  link_notification up = link_up
  link_notification down = link_down

  abbrev pub set_oper : Trap → ℕ → SimIfStatus → Trap
  set_oper t i now = record t { last_oper = set t.last_oper i now }

  abbrev pub same_status : SimIfStatus → SimIfStatus → Bool
  same_status up up = true
  same_status down down = true
  same_status up down = false
  same_status down up = false

  -- One interface: its state is recorded, and the change is sent.
  unfoldable pub watch_link : ℕ → SimIfStatus → Trap → Trap
  watch_link i now t =
      if same_status now (get_or t.last_oper i down)
      then t
      else send_trap (link_notification now) (suc i) (set_oper t i now)

  -- The interfaces from `i` on, `n` of them.
  unfoldable pub watch_links : SimSwitch → ℕ → ℕ → Trap → Trap
  watch_links s zero i t = t
  watch_links s (suc n) i t =
      watch_links s n (suc i) (watch_link i (sim_switch_if_oper_status s i) t)

  -- One turn of the watcher's loop, behind its sleep.
  unfoldable pub trap_watcher : SimSwitch → Trap → Trap
  trap_watcher s t = watch_links s (sim_switch_if_count s) 0 (send_deferred (resolve_if_needed t))

  abbrev pub snapshot : SimSwitch → ℕ → ℕ → List SimIfStatus
  snapshot s zero i = []
  snapshot s (suc n) i = sim_switch_if_oper_status s i ∷ snapshot s n (suc i)

  -- `opened` is that the socket could be created. Without it the state stays as it was.
  unfoldable pub snmp_trap_start : Bool → SimSwitch → Trap → Trap
  snmp_trap_start opened s t =
      if not opened
      then t
      else (let t' = record t {
        socket = true;
        mgr_resolved = env.resolves;
        last_oper = snapshot s (sim_switch_if_count s) 0;
      } in
          if env.resolves
          then send_trap cold_start 0 t'
          else record t' { coldstart_pending = true })
