-- ===== src/Snmp/Agent/Encode.antt =====
-- About `encode_response` of lib/snmp/snmp_agent.c.
use microcontroller_devices.Prelude.{ℕ, zero, suc, ◌^◌, ◌<◌}
use microcontroller_devices.Prelude.{◌==◌, if◌then◌else◌}
use microcontroller_devices.Prelude.{◌≡◌, refl, sym, ap, ◌∙◌, arith}
use microcontroller_devices.Prelude.{Bool, true, false, not}
use microcontroller_devices.Prelude.{Option, none, some, List, [], ◌∷◌, ◌++◌}
use microcontroller_devices.Prelude.{All}
use microcontroller_devices.Prelude.{get_or}
use microcontroller_devices.Device.SimSwitch.Invariant.{IsValid}
use microcontroller_devices.Snmp.Ber.Encoder.{
  BerEnc, put_bytes, ber_wrap, ber_put_int, ber_put_octet_str, ber_put_oid, ber_put_null,
  ber_put_exception, tag_sequence,
}
use microcontroller_devices.Snmp.Ber.Encoder.Buffer.{put_bytes-append}
use microcontroller_devices.Snmp.Ber.Encoder.Form.{
  ber_wrap-eq, ber_put_octet_str-eq, ber_put_null-eq, ber_put_exception-eq,
}
use microcontroller_devices.Snmp.Ber.Encoder.Writers.{ber_put_int-eq, ber_put_oid-eq}
use microcontroller_devices.Snmp.Ber.Spec.{int_tlv, octet_tlv, oid_tlv, sequence_tlv}
use microcontroller_devices.Snmp.Mib.{
  Mib, MibLeaf, MibSource, mib_put_value, mib_put_oid, mib_leaf_oid,
}
use microcontroller_devices.Snmp.Mib.Values.{mib_put_value-eq}
use microcontroller_devices.Snmp.Agent.{
  RespVb, leaf_at, emit_varbind, emit_varbinds, encode_response, snmp_pdu_response,
}
use microcontroller_devices.Snmp.Agent.Spec.{
  name_of, plain_value, varbind_value, varbind_form, varbinds_form, response_form,
}

-- What the encoding relies on: a valid simulation, and rows of one byte in the table.
pub record IsReady (m : Mib) (v : MibSource) : Type 0 where
  pub switch : IsValid v.switch
  pub rows : All (λ (l : MibLeaf). l.row < 256) m.leaves

row_at :
    (ls : List MibLeaf) (i : ℕ)
    → All (λ (l : MibLeaf). l.row < 256) ls
    → (get_or ls i (record { kind = 0; col = 0; row = 0 })).row < 2 ^ 32
row_at [] i h = omega arith
row_at (l ∷ ls) zero h = omega arith
row_at (l ∷ ls) (suc i) h = row_at ls i h.1

module _ (m : Mib) (v : MibSource) (ready : IsReady m v) where
  valued :
      (e : BerEnc) (leaf : Option ℕ) (exception : ℕ)
      → (let w : BerEnc =
            if not (exception == 0)
            then ber_put_exception e exception
            else elim leaf [ some i ↦ mib_put_value m v e (leaf_at m i) | none ↦ ber_put_null e ] in
          w)
        ≡ put_bytes e (varbind_value m v exception leaf)
  valued e leaf exception = go (not (exception == 0)) leaf
    where
      go :
          (b : Bool) (leaf : Option ℕ)
          → (let w : BerEnc = if b then ber_put_exception e exception else elim leaf [
            | some i ↦ mib_put_value m v e (leaf_at m i)
            | none ↦ ber_put_null e
          ] in
              w)
            ≡ put_bytes e (if b then exception ∷ 0 ∷ [] else plain_value m v leaf)
      go true leaf = ber_put_exception-eq e exception
      go false none = ber_put_null-eq e
      go false (some i) =
          mib_put_value-eq m v e (leaf_at m i) ready.switch (row_at m.leaves i ready.rows)

  named :
      (e : BerEnc) (leaf : Option ℕ) (name : List ℕ)
      → (let w : BerEnc = elim leaf [
        | some i ↦ mib_put_oid e (leaf_at m i)
        | none ↦ ber_put_oid e name
      ] in
          w)
        ≡ put_bytes e (oid_tlv (name_of m v leaf name))
  named e none name = ber_put_oid-eq e name
  named e (some i) name = unfold mib_put_oid in ber_put_oid-eq e (mib_leaf_oid (leaf_at m i))

  emit_varbind-eq :
      (e : BerEnc) (vb : RespVb) → emit_varbind m v e vb ≡ put_bytes e (varbind_form m v vb)
  unfolding emit_varbind
  emit_varbind-eq e vb =
      ap (λ (x : BerEnc). ber_wrap x e.pos tag_sequence)
        (named _ vb.leaf vb.name
          ∙ ap (λ x. put_bytes x name) (valued e vb.leaf vb.exception)
          ∙ sym (put_bytes-append e name value))
      ∙ ber_wrap-eq e (name ++ value) tag_sequence
    where
      name : List ℕ
      name = oid_tlv (name_of m v vb.leaf vb.name)

      value : List ℕ
      value = varbind_value m v vb.exception vb.leaf

  emit_varbinds-eq :
      (e : BerEnc) (vbs : List RespVb)
      → emit_varbinds m v e vbs ≡ put_bytes e (varbinds_form m v vbs)
  unfolding emit_varbinds varbinds_form
  emit_varbinds-eq e [] = unfold put_bytes in refl
  emit_varbinds-eq e (vb ∷ vbs) =
      ap (λ x. emit_varbind m v x vb) (emit_varbinds-eq e vbs)
      ∙ emit_varbind-eq (put_bytes e (varbinds_form m v vbs)) vb
      ∙ sym (put_bytes-append e (varbind_form m v vb) (varbinds_form m v vbs))

-- A writer that is a run of its own, behind bytes that are written already.
pub then_writes :
    (e : BerEnc) (w : BerEnc → BerEnc) (bs cs : List ℕ)
    → ((x : BerEnc) → w x ≡ put_bytes x bs)
    → w (put_bytes e cs) ≡ put_bytes e (bs ++ cs)
then_writes e w bs cs h = h (put_bytes e cs) ∙ sym (put_bytes-append e bs cs)

-- `encode_response` writes the response message with the planned varbinds in order, and nothing
-- else, in front of what the buffer holds, an overflow included, where both sides stop. The
-- simulation is valid, the table's rows are bytes, and the three numbers are 32-bit patterns.
pub encode_response-eq :
    (m : Mib) (v : MibSource) (e : BerEnc) (request_id status index : ℕ) (community : List ℕ)
    (vbs : List RespVb)
    → IsReady m v
    → request_id < 2 ^ 32
    → status < 2 ^ 32
    → index < 2 ^ 32
    → encode_response m v e request_id status index community vbs
      ≡ put_bytes e (response_form m v request_id status index community vbs)
unfolding encode_response response_form
encode_response-eq m v e request_id status index community vbs ready hr hs hi =
    ap (λ x. wrap (version (comm (pdu (rid (sta (idx (wrap x))))))))
      (emit_varbinds-eq m v ready e vbs)
    ∙ ap (λ x. wrap (version (comm (pdu (rid (sta (idx x))))))) (ber_wrap-eq e list tag_sequence)
    ∙ ap (λ x. wrap (version (comm (pdu (rid (sta x))))))
        (then_writes e idx (int_tlv index) (sequence_tlv list) (λ x. ber_put_int-eq x index hi))
    ∙ ap (λ x. wrap (version (comm (pdu (rid x)))))
        (then_writes e sta (int_tlv status) _ (λ x. ber_put_int-eq x status hs))
    ∙ ap (λ x. wrap (version (comm (pdu x))))
        (then_writes e rid (int_tlv request_id) _ (λ x. ber_put_int-eq x request_id hr))
    ∙ ap (λ x. wrap (version (comm x))) (ber_wrap-eq e _ snmp_pdu_response)
    ∙ ap (λ x. wrap (version x))
        (then_writes e comm (octet_tlv community) _ (λ x. ber_put_octet_str-eq x community))
    ∙ ap wrap (then_writes e version (int_tlv 1) _ (λ x. ber_put_int-eq x 1 (omega arith)))
    ∙ ber_wrap-eq e _ tag_sequence
  where
    list : List ℕ
    list = varbinds_form m v vbs

    wrap : BerEnc → BerEnc
    wrap x = ber_wrap x e.pos tag_sequence

    pdu : BerEnc → BerEnc
    pdu x = ber_wrap x e.pos snmp_pdu_response

    idx : BerEnc → BerEnc
    idx x = ber_put_int x index

    sta : BerEnc → BerEnc
    sta x = ber_put_int x status

    rid : BerEnc → BerEnc
    rid x = ber_put_int x request_id

    comm : BerEnc → BerEnc
    comm x = ber_put_octet_str x community

    version : BerEnc → BerEnc
    version x = ber_put_int x 1
