-- ===== src/Tests/Ber.antt =====
-- The BER reader and writer on small inputs.
use microcontroller_devices.Prelude.{ℕ}
use microcontroller_devices.Prelude.{◌≡◌, arith}
use microcontroller_devices.Prelude.{false}
use microcontroller_devices.Prelude.{some, List, [], ◌∷◌, ◌++◌}
use microcontroller_devices.Snmp.Ber.Encoder.{BerEnc, tag_sequence}
use microcontroller_devices.Snmp.Ber.Spec.{tlv}
use microcontroller_devices.Snmp.Ber.Decoder.{ber_get_tlv}
use microcontroller_devices.Snmp.Ber.Decoder.Tlv.{ber_get_tlv-tlv}
use microcontroller_devices.Snmp.Ber.Decoder.Numbers.{IsOid}

abbrev buffer : BerEnc
buffer = record { base = λ j. 0; cap = 8; pos = 8; overflow = false }

abbrev bytes : List ℕ
bytes = 5 ∷ 6 ∷ 7 ∷ []

abbrev enterprise : List ℕ
enterprise = 1 ∷ 3 ∷ 6 ∷ 1 ∷ 4 ∷ 1 ∷ 99999 ∷ []

ber_get_tlv-tlv_example :
    ber_get_tlv (tlv tag_sequence bytes ++ (9 ∷ [])) ≡ some (tag_sequence, bytes, 9 ∷ [])
ber_get_tlv-tlv_example = ber_get_tlv-tlv tag_sequence bytes (9 ∷ []) (omega arith)

enterprise-IsOid : IsOid enterprise
enterprise-IsOid = (
  omega arith,
  omega arith,
  (omega arith, (omega arith, (omega arith, (omega arith, (omega arith, tt))))),
)
