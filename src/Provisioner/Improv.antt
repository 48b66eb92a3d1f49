-- ===== src/Provisioner/Improv.antt =====
-- apps/wifi-provisioner/src/improv.c: the RPC frames of the Improv GATT service.
-- A notification to the client and the advertised state follow `cur_state` and `cur_error`, and the
-- LED's flash changes neither: they are left out.
pub mod Settings
pub mod Receive
use microcontroller_devices.Prelude.{ℕ, zero, suc, ◌+◌, ◌-◌, ◌*◌, ◌/◌, ◌%◌, ◌^◌, ◌≤◌, ◌<◌}
use microcontroller_devices.Prelude.{ltb, leb, ◌==◌, if◌then◌else◌, ltb→lt, lt→ltb, leb→le, ==_iff}
use microcontroller_devices.Prelude.{◌≡◌, ◌≢◌, refl, sym, ap, ap₂, ◌∙◌, arith, ◌⊎◌, inl, inr, ◌↔◌}
use microcontroller_devices.Prelude.{Bool, true, false, ◌&&◌, ◌||◌, not, Bool-cases, Option-cases}
use microcontroller_devices.Prelude.{
  Option, none, some, List, [], ◌∷◌, ◌++◌, append-nil, append_assoc,
}
use microcontroller_devices.Prelude.{reverse, length, length-append, take, drop, All, All-append}
use microcontroller_devices.Prelude.{get_elem?, get_or, set, length-set}

abbrev pub st_auth_required : ℕ
st_auth_required = 1

abbrev pub st_authorized : ℕ
st_authorized = 2

abbrev pub st_provisioning : ℕ
st_provisioning = 3

abbrev pub err_none : ℕ
err_none = 0

abbrev pub err_invalid_rpc : ℕ
err_invalid_rpc = 1

abbrev pub err_unknown_rpc : ℕ
err_unknown_rpc = 2

abbrev pub err_not_authorized : ℕ
err_not_authorized = 4

abbrev pub err_unknown : ℕ
err_unknown = 255

abbrev pub cmd_wifi_settings : ℕ
cmd_wifi_settings = 1

abbrev pub cmd_identify : ℕ
cmd_identify = 2

abbrev pub frame_max : ℕ
frame_max = 101

-- The messages that `prov_q` holds.
abbrev pub prov_q_len : ℕ
prov_q_len = 2

-- `struct app_wifi_creds`; the lengths are those of the lists.
pub record Creds : Type 0 where
  pub ssid : List ℕ
  pub psk : List ℕ

pub data ProvMsg : Type 0 where
  settings : Creds → ProvMsg
  button : ProvMsg

-- The static variables. `rx` is the first `rx_len` bytes of `rx_buf`.
pub record Improv : Type 0 where
  pub cur_state : ℕ
  pub cur_error : ℕ
  pub rx : List ℕ
  pub rx_last : ℕ
  pub prov_q : List ProvMsg

abbrev pub set_state : Improv → ℕ → Improv
set_state s v = record s { cur_state = v }

abbrev pub set_error : Improv → ℕ → Improv
set_error s v = record s { cur_error = v }

-- `k_msgq_put` with no wait: the queue behind it, or no room.
abbrev pub msgq_put : List ProvMsg → ProvMsg → Option (List ProvMsg)
msgq_put q m = if leb prov_q_len (length q) then none else some (q ++ (m ∷ []))

unfoldable pub sum : List ℕ → ℕ
sum [] = 0
sum (b ∷ bs) = b + sum bs

unfoldable pub checksum : List ℕ → ℕ
checksum bs = sum bs % 2 ^ 32 % 256

-- The credentials of a settings command with the data `d` of length `len`.
pub parse_settings : ℕ → List ℕ → Option Creds
parse_settings len d =
    let ssid_len = if leb 1 len then get_or d 0 0 else 0 in
    let psk_len = get_or d (1 + ssid_len) 0 in
    if ltb len 2 || ssid_len == 0 || ltb 32 ssid_len || ltb len (ssid_len + 2)
    then none
    else (if ltb 64 psk_len || not (ssid_len + psk_len + 2 == len)
        then none
        else some (record {
          ssid = take ssid_len (drop 1 d);
          psk = take psk_len (drop (2 + ssid_len) d);
        }))

-- Settings that parsed.
pub accept_settings : Improv → Creds → Improv
accept_settings s creds =
    let begun = set_state (set_error s err_none) st_provisioning in
    if s.cur_state == st_auth_required
    then set_error s err_not_authorized
    else (if not (s.cur_state == st_authorized)
        then s
        else elim (msgq_put s.prov_q (settings creds)) [
          | some q ↦ record begun { prov_q = q }
          | none ↦ set_error (set_state begun st_authorized) err_unknown
        ])

pub handle_frame : Improv → List ℕ → Improv
handle_frame s f =
    let n = length f in
    let cmd = get_or f 0 0 in
    let len = get_or f 1 0 in
    if not (n == len + 3) || not (checksum (take (n - 1) f) == get_or f (n - 1) 0)
    then set_error s err_invalid_rpc
    else (if cmd == cmd_identify
        then set_error s err_none
        else (if cmd == cmd_wifi_settings
            then elim (parse_settings len (drop 2 f)) [
              | none ↦ set_error s err_invalid_rpc
              | some creds ↦ accept_settings s creds
            ]
            else set_error s err_unknown_rpc))

-- The bytes that a write has received are a whole frame.
abbrev pub complete : List ℕ → Bool
complete rx = leb 2 (length rx) && leb (get_or rx 1 0 + 3) (length rx)

-- The bytes `buf` behind those that the buffer keeps: the frame is handled when it is whole.
pub receive : Improv → List ℕ → List ℕ → ℕ → Improv
receive s before buf now =
    let received = before ++ buf in
    let s1 = record s { rx = before; rx_last = now } in
    if ltb frame_max (length before + length buf)
    then set_error (record s1 { rx = [] }) err_invalid_rpc
    else (if complete received
        then record (handle_frame (record s1 { rx = received }) received) { rx = [] }
        else record s1 { rx = received })

-- A frame that an earlier write left incomplete goes on with this one.
abbrev pub continuing : Improv → Bool → ℕ → Bool
continuing s execute now =
    leb 2 (length s.rx)
    && ltb (length s.rx) (get_or s.rx 1 0 + 3)
    && ltb now (s.rx_last + 2000)
    && not execute

-- `none` is BT_ATT_ERR_INVALID_OFFSET, and a number is what `write_rpc` returns.
pub write_rpc : Improv → List ℕ → ℕ → Bool → Bool → ℕ → Option ℕ × Improv
write_rpc s buf offset prepare execute now =
    let before = if offset == 0 && not (continuing s execute now) then [] else s.rx in
    if prepare
    then (some 0, s)
    else (if not (offset == 0) && not (offset == length s.rx)
        then (none, s)
        else (some (length buf), receive s before buf now))
