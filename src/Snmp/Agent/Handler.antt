-- ===== src/Snmp/Agent/Handler.antt =====
-- `handle_request` of lib/snmp/snmp_agent.c: the answer in the transmit buffer.
use microcontroller_devices.Prelude.{ℕ}
use microcontroller_devices.Prelude.{◌==◌, if◌then◌else◌}
use microcontroller_devices.Prelude.{none, some, List}
use microcontroller_devices.Snmp.Ber.Encoder.{BerEnc, ber_enc_init, ber_enc_length}
use microcontroller_devices.Snmp.Mib.{Mib, MibSource}
use microcontroller_devices.Snmp.Agent.{
  AgentConfig, ParsedReq, RespVb, encode_response, encode_error, parse_request, plan_get,
  plan_getnext, snmp_pdu_get, snmp_pdu_getnext, snmp_pdu_set, snmp_pdu_getbulk, err_none,
  err_too_big, err_gen_err, err_not_writable, snmp_tx_buf,
}
use microcontroller_devices.Snmp.Agent.Bulk.{plan_getbulk}

-- The memory of `tx_buf` and the response length; the response is the tail of the buffer.
abbrev pub sent : BerEnc → (ℕ → ℕ) × ℕ
sent e = (e.base, ber_enc_length e)

-- A planned response; one that does not fit is replaced by tooBig with an empty list.
unfoldable pub send_planned : Mib → MibSource → (ℕ → ℕ) → ParsedReq → List RespVb → (ℕ → ℕ) × ℕ
send_planned m v tx r vbs =
    let e =
      encode_response m v (ber_enc_init tx snmp_tx_buf) r.request_id err_none 0 r.community vbs in
    let small =
      encode_error m v (ber_enc_init e.base snmp_tx_buf) r.request_id err_too_big 0 r.community in
    if ber_enc_length e == 0 then sent small else sent e

unfoldable pub send_error : Mib → MibSource → (ℕ → ℕ) → ParsedReq → ℕ → ℕ → (ℕ → ℕ) × ℕ
send_error m v tx r status index =
    sent (encode_error m v (ber_enc_init tx snmp_tx_buf) r.request_id status index r.community)

-- A request that parsed.
unfoldable pub respond : AgentConfig → Mib → MibSource → (ℕ → ℕ) → ParsedReq → (ℕ → ℕ) × ℕ
respond c m v tx r =
    if r.too_many
    then send_error m v tx r err_too_big 0
    else (if r.pdu_type == snmp_pdu_set
        then send_error m v tx r err_not_writable 1
        else (if r.pdu_type == snmp_pdu_get
            then send_planned m v tx r (plan_get m r)
            else (if r.pdu_type == snmp_pdu_getnext
                then send_planned m v tx r (plan_getnext m r)
                else (if r.pdu_type == snmp_pdu_getbulk
                    then send_planned m v tx r (plan_getbulk c m r)
                    else send_error m v tx r err_gen_err 0))))

-- A length of 0 sends nothing.
unfoldable pub handle_request : AgentConfig → Mib → MibSource → (ℕ → ℕ) → List ℕ → (ℕ → ℕ) × ℕ
handle_request c m v tx buf = elim (parse_request c buf) [
  | none ↦ (tx, 0)
  | some r ↦ respond c m v tx r
]
