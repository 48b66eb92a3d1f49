-- ===== src/Snmp/Ber/Length.antt =====
-- The size of elements of the wire format.
use microcontroller_devices.Prelude.{ℕ, suc, ◌+◌, ◌^◌, ◌≤◌, ◌<◌}
use microcontroller_devices.Prelude.{◌≡◌, ap, arith}
use microcontroller_devices.Prelude.{List}
use microcontroller_devices.Prelude.{length, length-append}
use microcontroller_devices.Snmp.Ber.Spec.{tlv, length_form, int_tlv, int_form}
use microcontroller_devices.Snmp.Ber.Decoder.Tlv.{length-digits_le}
use microcontroller_devices.Snmp.Ber.Encoder.{tag_integer}
use microcontroller_devices.Snmp.Ber.Encoder.Writers.{length-int_form}

length-length_form :
    (n : ℕ) → n < 2 ^ 32 → (1 ≤ length (length_form n)) × (length (length_form n) ≤ 5)
unfolding length_form
length-length_form n h = ground (arith, length-digits_le n)

-- A header takes two to six bytes.
pub length-tlv :
    (tag : ℕ) (bs : List ℕ)
    → length bs < 2 ^ 32
    → (length bs + 2 ≤ length (tlv tag bs)) × (length (tlv tag bs) ≤ length bs + 6)
length-tlv tag bs h =
    let (lo, hi) = length-length_form (length bs) h in
    let e : length (tlv tag bs) ≡ suc (length (length_form (length bs)) + length bs) =
      ap suc (length-append (length_form (length bs)) bs) in
    (omega arith, omega arith)

pub length-int_tlv_le : (v : ℕ) → length (int_tlv v) ≤ 10
length-int_tlv_le v =
    let e : length (int_form v) ≤ 4 = rw (length-int_form v) (ground arith) in
    omega (arith, (length-tlv tag_integer (int_form v) (omega arith)).1)
