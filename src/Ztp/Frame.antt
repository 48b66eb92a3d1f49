-- ===== src/Ztp/Frame.antt =====
-- The framing of apps/wifi-provisioner/src/ztp.c: the messages that the relay writes and the ones it is sent.
pub mod Reassembly
pub mod Sending
use microcontroller_devices.Prelude.{ℕ, zero, suc, ◌+◌, ◌-◌, ◌*◌, ◌/◌, ◌%◌, ◌^◌, ◌≤◌, ◌<◌}
use microcontroller_devices.Prelude.{ltb, leb, ◌==◌, if◌then◌else◌, ltb→lt, lt→ltb, leb→le, ==_iff}
use microcontroller_devices.Prelude.{◌≡◌, ◌≢◌, refl, sym, ap, ap₂, ◌∙◌, arith, ◌⊎◌, inl, inr, ◌↔◌}
use microcontroller_devices.Prelude.{Bool, true, false, ◌&&◌, ◌||◌, not, Bool-cases, Option-cases}
use microcontroller_devices.Prelude.{
  Option, none, some, List, [], ◌∷◌, ◌++◌, append-nil, append_assoc,
}
use microcontroller_devices.Prelude.{reverse, length, length-append, take, drop, All, All-append}
use microcontroller_devices.Prelude.{get_elem?, get_or, set, length-set}
use mathlib.Core.List.{map}
use microcontroller_devices.Prelude.Int.{ℤ, pos, negsuc, ◌+ℤ◌, ◌-ℤ◌}
use microcontroller_devices.Ztp.Errors.{Errno, enomem, enotconn, einval, Rc}
use microcontroller_devices.Ztp.Time.{ztp_parse_rfc3339}

-- `enum ztp_msg`.
pub data Msg : Type 0 where
  msg_kick : Msg
  msg_response : Msg
  msg_overflow : Msg
  msg_button : Msg

-- `rx_buf` up to `rx_len`, `frag` up to `frag_have`, and the queue `ztp_q`.
pub record Rx : Type 0 where
  pub rx_buf : List ℕ
  pub rx_overflow : Bool
  pub rx_busy : Bool
  pub frag : List ℕ
  pub queue : List Msg

-- `k_msgq_put` with K_NO_WAIT on a queue of four: a message that finds it full is lost.
unfoldable pub post : Msg → Rx → Rx
post m r = if ltb (length r.queue) 4 then record r { queue = r.queue ++ (m ∷ []) } else r

abbrev pub frag_max : ℕ
frag_max = 512

abbrev pub tx_frag_max : ℕ
tx_frag_max = 180

abbrev pub get_be16 : List ℕ → ℕ
get_be16 b = get_or b 0 0 * 256 + get_or b 1 0

abbrev pub put_be16 : ℕ → List ℕ
put_be16 n = (n / 256 % 256) ∷ (n % 256) ∷ []

unfoldable pub rx_reset : Rx → Rx
rx_reset r = record r { rx_buf = []; rx_overflow = false; frag = [] }

-- `rx_bytes` is CONFIG_APP_PROV_ZTP_RX_BYTES, the size of `rx_buf`.
unfoldable pub rx_fragment : ℕ → Rx → Rx
rx_fragment rx_bytes r =
    let n = get_be16 r.frag in
    if n == 0
    then post
        (if length r.rx_buf == 0
          then msg_kick
          else if r.rx_overflow
          then msg_overflow
          else msg_response)
        (record r { rx_busy = true })
    else if ltb rx_bytes (length r.rx_buf + n)
    then record r { rx_overflow = true }
    else record r { rx_buf = r.rx_buf ++ take n (drop 2 r.frag) }

-- What the handler returns to the Bluetooth stack.
pub data Gatt : Type 0 where
  accepted : ℕ → Gatt
  invalid_offset : Gatt
  invalid_attribute_len : Gatt

-- The bytes are in `frag`: a whole fragment is taken out.
abbrev pub take_fragment : ℕ → Rx → Rx
take_fragment rx_bytes r =
    if leb 2 (length r.frag) && leb (2 + get_be16 r.frag) (length r.frag)
    then record (rx_fragment rx_bytes r) { frag = [] }
    else r

unfoldable pub write_request : ℕ → Rx → List ℕ → ℕ → Bool → Gatt × Rx
write_request rx_bytes r buf offset prepare =
    let have = if offset == 0 then [] else r.frag in
    if prepare
    then (accepted 0, r)
    else if r.rx_busy
    then (accepted (length buf), r)
    else if not (offset == 0) && not (offset == length r.frag)
    then (invalid_offset, r)
    else if ltb (2 + frag_max) (length have + length buf)
    then (invalid_attribute_len, record r { frag = have })
    else (accepted (length buf), take_fragment rx_bytes (record r { frag = have ++ buf }))

-- `release_rx`.
unfoldable pub release_rx : Rx → Rx
release_rx r = record (rx_reset r) { rx_busy = false }

-- The part of `on_disconnected` on the message that is half received.
unfoldable pub rx_disconnected : Rx → Rx
rx_disconnected r = if r.rx_busy then r else rx_reset r

-- `clock_offset_s` and `clock_known`.
pub record Clock : Type 0 where
  pub offset_s : ℤ
  pub known : Bool

-- `uptime` is `k_uptime_get()`, in milliseconds.
unfoldable pub clock_set : ℤ → ℕ → Clock
clock_set unix_s uptime = record { offset_s = unix_s -ℤ pos (uptime / 1000); known = true }

unfoldable pub clock_now : Clock → ℕ → ℤ
clock_now c uptime = pos (uptime / 1000) +ℤ c.offset_s

abbrev pub is_blank : ℕ → Bool
is_blank c = c == 32 || c == 10 || c == 13

-- Blanks at the end are dropped.
unfoldable pub trim_end : List ℕ → List ℕ
trim_end [] = []
trim_end (c ∷ cs) =
    let rest = trim_end cs in if length rest == 0 && is_blank c then [] else c ∷ rest

abbrev pub set_if : Option ℤ → Clock → ℕ → Clock
set_if none c uptime = c
set_if (some t) c uptime = clock_set t uptime

-- The length that is returned is what is left of the text.
unfoldable pub write_timesync : Clock → ℕ → List ℕ → ℕ → Gatt × Clock
write_timesync c uptime buf offset =
    let s = trim_end buf in
    if not (offset == 0)
    then (invalid_offset, c)
    else (accepted (length s), set_if (ztp_parse_rfc3339 s) c uptime)

-- One turn of the loop of `notify_retry`: the link is gone, or what `bt_gatt_notify` returned.
pub data Attempt : Type 0 where
  gone : Attempt
  returned : Rc → Attempt

abbrev pub is_enomem : Rc → Bool
is_enomem (some enomem) = true
is_enomem _ = false

-- `attempts` are the turns to come, the number of them in `t`; `fuel` counts the turns that are left.
unfoldable pub notify_retry : ℕ → (ℕ → Attempt) → ℕ → Rc × ℕ
notify_retry zero attempts t = (some enomem, t)
notify_retry (suc fuel) attempts t = elim (attempts t) [
  | gone ↦ (some enotconn, t + 1)
  | returned rc ↦
      let later = notify_retry fuel attempts (t + 1) in if is_enomem rc then later else (rc, t + 1)
]

-- The pieces of a message, at most `fuel` of them, of at most `chunk` bytes.
unfoldable pub pieces : ℕ → ℕ → List ℕ → List (List ℕ)
pieces zero chunk payload = []
pieces (suc fuel) chunk [] = []
pieces (suc fuel) chunk (b ∷ bs) = take chunk (b ∷ bs) ∷ pieces fuel chunk (drop chunk (b ∷ bs))

abbrev pub framed : List ℕ → List ℕ
framed piece = put_be16 (length piece) ++ piece

-- The fragments of a message and the terminator behind them.
unfoldable pub frames : ℕ → List ℕ → List (List ℕ)
frames chunk payload = map framed (pieces (length payload) chunk payload) ++ (put_be16 0 ∷ [])

abbrev pub and_send : Rc × ℕ → List ℕ → (ℕ → Rc × List (List ℕ)) → Rc × List (List ℕ)
and_send (some e, t) f go = (some e, [])
and_send (none, t) f go = let (rc, sent) = go t in (rc, f ∷ sent)

-- The fragments, one after the other, up to the first that fails; the second part is those
-- that were notified.
unfoldable pub send_frames : (ℕ → Attempt) → ℕ → List (List ℕ) → Rc × List (List ℕ)
send_frames attempts t [] = (none, [])
send_frames attempts t (f ∷ fs) =
    and_send (notify_retry 250 attempts t) f (λ t. send_frames attempts t fs)

abbrev pub smaller : ℕ → ℕ → ℕ
smaller a b = if ltb b a then b else a

-- `mtu` is what `bt_gatt_get_mtu` returns, at least 23, or `none` without a link.
unfoldable pub send_message : Option ℕ → (ℕ → Attempt) → List ℕ → Rc × List (List ℕ)
send_message none attempts payload = (some enotconn, [])
send_message (some mtu) attempts payload =
    let chunk = smaller tx_frag_max (mtu - 3 - 2) in
    if chunk == 0 then (some einval, []) else send_frames attempts 0 (frames chunk payload)
