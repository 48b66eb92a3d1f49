-- ===== src/Snmp/Agent/Answer.antt =====
-- What `handle_request` sends, as a function of the parsed request.
use microcontroller_devices.Prelude.{ℕ, ◌+◌, ◌-◌, ◌≤◌, ◌<◌}
use microcontroller_devices.Prelude.{leb, ◌==◌, if◌then◌else◌}
use microcontroller_devices.Prelude.{◌≡◌, refl, ap₂, ◌∙◌, arith, inl, inr}
use microcontroller_devices.Prelude.{false, Bool-cases}
use microcontroller_devices.Prelude.{List, [], ◌++◌, append-nil}
use microcontroller_devices.Prelude.{length, length-append}
use microcontroller_devices.Snmp.Ber.Encoder.{BerEnc, put_bytes, ber_enc_init, ber_enc_length}
use microcontroller_devices.Snmp.Ber.Encoder.Buffer.{
  window, contents, contents-put_bytes, put_bytes-Wrote, Wrote,
}
use microcontroller_devices.Snmp.Ber.Length.{length-tlv, length-int_tlv_le}
use microcontroller_devices.Snmp.Ber.Spec.{tlv, int_tlv, octet_tlv, sequence_tlv}
use microcontroller_devices.Snmp.Ber.Encoder.{tag_octet_str, tag_sequence}
use microcontroller_devices.Snmp.Mib.{Mib, MibSource}
use microcontroller_devices.Snmp.Agent.{
  AgentConfig, ParsedReq, RespVb, plan_get, plan_getnext, snmp_pdu_get, snmp_pdu_getnext,
  snmp_pdu_set, snmp_pdu_getbulk, err_none, err_too_big, err_gen_err, err_not_writable, snmp_tx_buf,
  snmp_pdu_response,
}
use microcontroller_devices.Snmp.Agent.Bulk.{plan_getbulk}
use microcontroller_devices.Snmp.Agent.Spec.{response_form, varbinds_form}
use microcontroller_devices.Snmp.Agent.Handler.{sent}

-- The bytes that the listener sends: the tail of the transmit buffer.
abbrev pub datagram : (ℕ → ℕ) × ℕ → List ℕ
datagram (tx, n) = window tx (snmp_tx_buf - n) n

sent-contents :
    (e : BerEnc)
    → e.overflow ≡ false
    → e.cap ≡ snmp_tx_buf
    → e.pos ≤ e.cap
    → (ber_enc_length e ≡ e.cap - e.pos) × (datagram (sent e) ≡ contents e)
unfolding ber_enc_length
sent-contents e ho hc hp = (size, ap₂ (window e.base) (omega (arith, size)) size)
  where
    size : ber_enc_length e ≡ e.cap - e.pos
    size = rw ho

pub fits :
    (tx : ℕ → ℕ) (bs : List ℕ)
    → length bs ≤ snmp_tx_buf
    → (ber_enc_length (put_bytes (ber_enc_init tx snmp_tx_buf) bs) ≡ length bs)
      × (datagram (sent (put_bytes (ber_enc_init tx snmp_tx_buf) bs)) ≡ bs)
unfolding ber_enc_init
fits tx bs h = (sized.0 ∙ omega (arith, down, wrote.cap_same), sized.1 ∙ written ∙ append-nil bs)
  where
    start : BerEnc
    start = ber_enc_init tx snmp_tx_buf

    wrote : Wrote start bs (put_bytes start bs)
    wrote = put_bytes-Wrote start bs

    room : (put_bytes start bs).overflow ≡ false
    room = wrote.no_overflow refl h

    down : (put_bytes start bs).pos + length bs ≡ snmp_tx_buf
    down = wrote.pos_down room

    sized :
        (ber_enc_length (put_bytes start bs) ≡ (put_bytes start bs).cap - (put_bytes start bs).pos)
        × (datagram (sent (put_bytes start bs)) ≡ contents (put_bytes start bs))
    sized =
        sent-contents (put_bytes start bs) room wrote.cap_same (omega (arith, down, wrote.cap_same))

    written : contents (put_bytes start bs) ≡ bs ++ contents start
    written = contents-put_bytes start bs refl h (omega arith)

pub too_long :
    (tx : ℕ → ℕ) (bs : List ℕ)
    → snmp_tx_buf < length bs
    → ber_enc_length (put_bytes (ber_enc_init tx snmp_tx_buf) bs) ≡ 0
unfolding ber_enc_length ber_enc_init
too_long tx bs h = elim (Bool-cases (put_bytes start bs).overflow) [
  | inl full ↦ rw full
  | inr some_room ↦ absurd (omega (arith, (put_bytes-Wrote start bs).pos_down some_room))
]
  where
    start : BerEnc
    start = ber_enc_init tx snmp_tx_buf

-- The error response: no varbinds.
abbrev pub error_answer : Mib → MibSource → ParsedReq → ℕ → ℕ → List ℕ
error_answer m v r status index = response_form m v r.request_id status index r.community []

-- The planned response where it fits a datagram, and tooBig where it does not.
abbrev pub planned_answer : Mib → MibSource → ParsedReq → List RespVb → List ℕ
planned_answer m v r vbs =
    let full = response_form m v r.request_id err_none 0 r.community vbs in
    if leb (length full) snmp_tx_buf then full else error_answer m v r err_too_big 0

-- The answer to a request, as a table of cases.
abbrev pub answer : AgentConfig → Mib → MibSource → ParsedReq → List ℕ
answer c m v r =
    if r.too_many
    then error_answer m v r err_too_big 0
    else (if r.pdu_type == snmp_pdu_set
        then error_answer m v r err_not_writable 1
        else (if r.pdu_type == snmp_pdu_get
            then planned_answer m v r (plan_get m r)
            else (if r.pdu_type == snmp_pdu_getnext
                then planned_answer m v r (plan_getnext m r)
                else (if r.pdu_type == snmp_pdu_getbulk
                    then planned_answer m v r (plan_getbulk c m r)
                    else error_answer m v r err_gen_err 0))))

int_sizes :
    (a b c : ℕ) (rest : List ℕ)
    → length (int_tlv a ++ (int_tlv b ++ (int_tlv c ++ rest))) ≤ 30 + length rest
int_sizes a b c rest = omega (
  arith,
  length-append (int_tlv a) (int_tlv b ++ (int_tlv c ++ rest)),
  length-append (int_tlv b) (int_tlv c ++ rest),
  length-append (int_tlv c) rest,
  length-int_tlv_le a,
  length-int_tlv_le b,
  length-int_tlv_le c,
)

-- "Always fits": an error response to a community of up to 1400 bytes.
pub error_answer_fits :
    (m : Mib) (v : MibSource) (r : ParsedReq) (status index : ℕ)
    → length r.community ≤ 1400
    → (0 < length (error_answer m v r status index))
      × (length (error_answer m v r status index) ≤ snmp_tx_buf)
unfolding response_form varbinds_form
error_answer_fits m v r status index h = (omega (arith, whole.0), omega (arith, whole.1, parts))
  where
    empty : List ℕ
    empty = sequence_tlv []

    ints : List ℕ
    ints = int_tlv r.request_id ++ (int_tlv status ++ (int_tlv index ++ empty))

    pdu : List ℕ
    pdu = tlv snmp_pdu_response ints

    body : List ℕ
    body = int_tlv 1 ++ (octet_tlv r.community ++ pdu)

    parts : length body ≤ 1470
    parts = omega (
      arith,
      length-append (int_tlv 1) (octet_tlv r.community ++ pdu),
      length-append (octet_tlv r.community) pdu,
      length-int_tlv_le 1,
      (length-tlv tag_octet_str r.community (omega arith)).1,
      (length-tlv snmp_pdu_response ints (
          omega (
            arith,
            int_sizes r.request_id status index empty,
            (length-tlv tag_sequence [] (omega arith)).1,
          ))).1,
      int_sizes r.request_id status index empty,
      (length-tlv tag_sequence [] (omega arith)).1,
    )

    whole :
        (length body + 2 ≤ length (sequence_tlv body))
        × (length (sequence_tlv body) ≤ length body + 6)
    whole = length-tlv tag_sequence body (omega (arith, parts))
