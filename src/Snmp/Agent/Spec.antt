-- ===== src/Snmp/Agent/Spec.antt =====
-- The SNMPv2c messages of the agent, as plain byte lists. Nothing here is translated from the code.
use microcontroller_devices.Prelude.{ℕ}
use microcontroller_devices.Prelude.{◌==◌, if◌then◌else◌}
use microcontroller_devices.Prelude.{not}
use microcontroller_devices.Prelude.{Option, none, some, List, [], ◌∷◌, ◌++◌}
use microcontroller_devices.Snmp.Ber.Spec.{tlv, int_tlv, octet_tlv, oid_tlv, sequence_tlv, null_tlv}
use microcontroller_devices.Snmp.Mib.{Mib, MibSource, mib_leaf_oid}
use microcontroller_devices.Snmp.Mib.Values.{value_form, leaf_value}
use microcontroller_devices.Snmp.Agent.{RespVb, leaf_at, snmp_pdu_response}

module _ (m : Mib) (v : MibSource) where
  -- The name of a varbind: the leaf's OID, or the request name.
  abbrev pub name_of : Option ℕ → List ℕ → List ℕ
  name_of none name = name
  name_of (some i) name = mib_leaf_oid (leaf_at m i)

  -- Its value: the exception, the leaf's value, or NULL.
  abbrev pub plain_value : Option ℕ → List ℕ
  plain_value none = null_tlv
  plain_value (some i) = value_form (leaf_value m v (leaf_at m i))

  abbrev pub varbind_value : ℕ → Option ℕ → List ℕ
  varbind_value exception leaf =
      if not (exception == 0) then exception ∷ 0 ∷ [] else plain_value leaf

  abbrev pub varbind_form : RespVb → List ℕ
  varbind_form vb =
      sequence_tlv (oid_tlv (name_of vb.leaf vb.name) ++ varbind_value vb.exception vb.leaf)

  unfoldable pub varbinds_form : List RespVb → List ℕ
  varbinds_form [] = []
  varbinds_form (vb ∷ vbs) = varbind_form vb ++ varbinds_form vbs

abbrev pub pdu_form : ℕ → ℕ → ℕ → ℕ → List ℕ → List ℕ
pdu_form type request_id second third varbinds =
    tlv type (int_tlv request_id ++ (int_tlv second ++ (int_tlv third ++ sequence_tlv varbinds)))

abbrev pub message_form : List ℕ → List ℕ → List ℕ
message_form community pdu = sequence_tlv (int_tlv 1 ++ (octet_tlv community ++ pdu))

-- The response message.
unfoldable pub response_form : Mib → MibSource → ℕ → ℕ → ℕ → List ℕ → List RespVb → List ℕ
response_form m v request_id status index community vbs =
    message_form community
      (pdu_form snmp_pdu_response request_id status index (varbinds_form m v vbs))
