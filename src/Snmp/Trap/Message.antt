-- ===== src/Snmp/Trap/Message.antt =====
-- The bytes of a notification.
use microcontroller_devices.Prelude.{ℕ, zero, suc, ◌^◌, ◌<◌}
use microcontroller_devices.Prelude.{◌≡◌, refl, ap, ◌∙◌, arith}
use microcontroller_devices.Prelude.{List, [], ◌∷◌, ◌++◌}
use microcontroller_devices.Snmp.Ber.Encoder.{
  BerEnc, put_bytes, ber_wrap, ber_put_int, ber_put_octet_str, ber_put_oid, ber_put_uint_tagged,
  tag_sequence, tag_timeticks,
}
use microcontroller_devices.Snmp.Ber.Encoder.Form.{ber_wrap-eq, ber_put_octet_str-eq}
use microcontroller_devices.Snmp.Ber.Encoder.Writers.{
  ber_put_int-eq, ber_put_oid-eq, ber_put_uint_tagged-eq,
}
use microcontroller_devices.Snmp.Ber.Spec.{
  tlv, int_tlv, octet_tlv, oid_tlv, sequence_tlv, uint_form,
}
use microcontroller_devices.Snmp.Agent.Spec.{pdu_form, message_form}
use microcontroller_devices.Snmp.Agent.Encode.{then_writes}
use microcontroller_devices.Snmp.Trap.{
  snmp_pdu_trap_v2, oid_sysuptime, oid_trapoid, oid_ifindex_col, vb_oid, vb_timeticks, vb_int,
  vb_ifindex, encode_trap,
}

-- The varbinds of a notification (RFC 3416, 4.2.6): the uptime, its OID, and the interface.
abbrev pub ifindex_form : ℕ → List ℕ
ifindex_form zero = []
ifindex_form (suc i) = sequence_tlv (oid_tlv (oid_ifindex_col ++ (suc i ∷ [])) ++ int_tlv (suc i))

abbrev pub trap_varbinds : ℕ → List ℕ → ℕ → List ℕ
trap_varbinds ticks trap_oid ifindex =
    sequence_tlv (oid_tlv oid_sysuptime ++ tlv tag_timeticks (uint_form ticks))
    ++ (sequence_tlv (oid_tlv oid_trapoid ++ oid_tlv trap_oid) ++ ifindex_form ifindex)

-- A varbind: the value is written first, the name in front of it.
varbind :
    (e : BerEnc) (x : BerEnc) (name value : List ℕ)
    → x ≡ put_bytes e value
    → ber_wrap (ber_put_oid x name) e.pos tag_sequence
      ≡ put_bytes e (sequence_tlv (oid_tlv name ++ value))
varbind e x name value h =
    ap (λ y. ber_wrap y e.pos tag_sequence)
      (ap (λ y. ber_put_oid y name) h
        ∙ then_writes e (λ y. ber_put_oid y name) (oid_tlv name) value (λ y. ber_put_oid-eq y name))
    ∙ ber_wrap-eq e (oid_tlv name ++ value) tag_sequence

vb_oid-eq :
    (e : BerEnc) (name val : List ℕ)
    → vb_oid e name val ≡ put_bytes e (sequence_tlv (oid_tlv name ++ oid_tlv val))
unfolding vb_oid
vb_oid-eq e name val = varbind e (ber_put_oid e val) name (oid_tlv val) (ber_put_oid-eq e val)

vb_timeticks-eq :
    (e : BerEnc) (name : List ℕ) (ticks : ℕ)
    → ticks < 2 ^ 32
    → vb_timeticks e name ticks
      ≡ put_bytes e (sequence_tlv (oid_tlv name ++ tlv tag_timeticks (uint_form ticks)))
unfolding vb_timeticks
vb_timeticks-eq e name ticks h =
    varbind e (ber_put_uint_tagged e ticks tag_timeticks) name (tlv tag_timeticks (uint_form ticks))
      (ber_put_uint_tagged-eq e ticks tag_timeticks h)

vb_ifindex-eq :
    (e : BerEnc) (ifindex : ℕ)
    → ifindex < 2 ^ 32
    → vb_ifindex e ifindex ≡ put_bytes e (ifindex_form ifindex)
unfolding vb_int
vb_ifindex-eq e zero h = unfold put_bytes in refl
vb_ifindex-eq e (suc i) h =
    varbind e (ber_put_int e (suc i)) (oid_ifindex_col ++ (suc i ∷ [])) (int_tlv (suc i))
      (ber_put_int-eq e (suc i) h)

varbinds-eq :
    (e : BerEnc) (ticks : ℕ) (trap_oid : List ℕ) (ifindex : ℕ)
    → ticks < 2 ^ 32
    → ifindex < 2 ^ 32
    → vb_timeticks (vb_oid (vb_ifindex e ifindex) oid_trapoid trap_oid) oid_sysuptime ticks
      ≡ put_bytes e (trap_varbinds ticks trap_oid ifindex)
varbinds-eq e ticks trap_oid ifindex h k =
    ap (λ x. vb_timeticks (vb_oid x oid_trapoid trap_oid) oid_sysuptime ticks)
      (vb_ifindex-eq e ifindex k)
    ∙ ap (λ x. vb_timeticks x oid_sysuptime ticks)
        (then_writes e (λ x. vb_oid x oid_trapoid trap_oid)
          (sequence_tlv (oid_tlv oid_trapoid ++ oid_tlv trap_oid)) (ifindex_form ifindex)
          (λ x. vb_oid-eq x oid_trapoid trap_oid))
    ∙ then_writes e (λ x. vb_timeticks x oid_sysuptime ticks)
        (sequence_tlv (oid_tlv oid_sysuptime ++ tlv tag_timeticks (uint_form ticks)))
        (sequence_tlv (oid_tlv oid_trapoid ++ oid_tlv trap_oid) ++ ifindex_form ifindex)
        (λ x. vb_timeticks-eq x oid_sysuptime ticks h)

-- `encode_trap` writes the SNMPv2 trap message with the uptime, the notification's OID and, for
-- an index above 0, the interface, and nothing else, in front of what the buffer holds, an
-- overflow included, where both sides stop. The three numbers are 32-bit patterns.
pub encode_trap-eq :
    (e : BerEnc) (community : List ℕ) (ticks request_id : ℕ) (trap_oid : List ℕ) (ifindex : ℕ)
    → ticks < 2 ^ 32
    → request_id < 2 ^ 32
    → ifindex < 2 ^ 32
    → encode_trap e community ticks request_id trap_oid ifindex
      ≡ put_bytes e (
          message_form community
            (pdu_form snmp_pdu_trap_v2 request_id 0 0 (trap_varbinds ticks trap_oid ifindex)))
unfolding encode_trap
encode_trap-eq e community ticks request_id trap_oid ifindex ht hr hi =
    ap (λ x. wrap (version (comm (pdu (rid (zero_int (zero_int (wrap x))))))))
      (varbinds-eq e ticks trap_oid ifindex ht hi)
    ∙ ap (λ x. wrap (version (comm (pdu (rid (zero_int (zero_int x)))))))
        (ber_wrap-eq e list tag_sequence)
    ∙ ap (λ x. wrap (version (comm (pdu (rid (zero_int x))))))
        (then_writes e zero_int (int_tlv 0) (sequence_tlv list)
          (λ x. ber_put_int-eq x 0 (omega arith)))
    ∙ ap (λ x. wrap (version (comm (pdu (rid x)))))
        (then_writes e zero_int (int_tlv 0) _ (λ x. ber_put_int-eq x 0 (omega arith)))
    ∙ ap (λ x. wrap (version (comm (pdu x))))
        (then_writes e rid (int_tlv request_id) _ (λ x. ber_put_int-eq x request_id hr))
    ∙ ap (λ x. wrap (version (comm x))) (ber_wrap-eq e _ snmp_pdu_trap_v2)
    ∙ ap (λ x. wrap (version x))
        (then_writes e comm (octet_tlv community) _ (λ x. ber_put_octet_str-eq x community))
    ∙ ap wrap (then_writes e version (int_tlv 1) _ (λ x. ber_put_int-eq x 1 (omega arith)))
    ∙ ber_wrap-eq e _ tag_sequence
  where
    list : List ℕ
    list = trap_varbinds ticks trap_oid ifindex

    wrap : BerEnc → BerEnc
    wrap x = ber_wrap x e.pos tag_sequence

    pdu : BerEnc → BerEnc
    pdu x = ber_wrap x e.pos snmp_pdu_trap_v2

    zero_int : BerEnc → BerEnc
    zero_int x = ber_put_int x 0

    rid : BerEnc → BerEnc
    rid x = ber_put_int x request_id

    comm : BerEnc → BerEnc
    comm x = ber_put_octet_str x community

    version : BerEnc → BerEnc
    version x = ber_put_int x 1
