-- ===== src/Snmp/Ber/Encoder/Form.antt =====
-- The writers of the encoder and the wire format.
use microcontroller_devices.Prelude.{ℕ, zero, suc, ◌+◌, ◌-◌, ◌/◌, ◌%◌, ltb}
use microcontroller_devices.Prelude.{◌≡◌, refl, sym, ap, ap₂, ◌∙◌, arith, false}
use microcontroller_devices.Prelude.{Bool-cases, inl, inr}
use microcontroller_devices.Prelude.{List, [], ◌∷◌, ◌++◌, length, append-nil, append_assoc, reverse}
use mathlib.Core.List.{reverse-cons}
use microcontroller_devices.Snmp.Ber.Encoder.{
  BerEnc, put_byte, put_bytes, put_len, len_bytes, ber_wrap, ber_put_octet_str, ber_put_null,
  ber_put_exception, tag_octet_str, tag_null,
}
use microcontroller_devices.Snmp.Ber.Encoder.Buffer.{
  put_bytes_full, put_bytes-append, put_each-eq, put_bytes-Wrote,
}
use microcontroller_devices.Snmp.Ber.Spec.{digits, length_form, tlv, octet_tlv}

pub reverse-cons_append :
    (x : ℕ) (xs acc : List ℕ) → reverse (x ∷ xs) ++ acc ≡ reverse xs ++ (x ∷ acc)
reverse-cons_append x xs acc = rw (reverse-cons, append_assoc)

-- The scratch array read backwards is the big-endian form.
len_bytes-digits : (f v : ℕ) (acc : List ℕ) → reverse (len_bytes f v) ++ acc ≡ digits f v acc
unfolding len_bytes digits
len_bytes-digits zero v acc = refl
len_bytes-digits (suc f) v acc = elim (Bool-cases (ltb 0 v)) [
  | inl more ↦
      rw more (reverse-cons_append _ (len_bytes f (v / 256)) acc ∙ len_bytes-digits f (v / 256) _)
  | inr done ↦ rw done
]

length-digits :
    (f v : ℕ) (acc : List ℕ) → length (digits f v acc) ≡ length (len_bytes f v) + length acc
unfolding len_bytes digits
length-digits zero v acc = omega arith
length-digits (suc f) v acc = ground (arith, length-digits f (v / 256) (v % 256 ∷ acc))

put_len-eq : (e : BerEnc) (n : ℕ) → put_len e n ≡ put_bytes e (length_form n)
unfolding put_len length_form put_bytes
put_len-eq e n = elim (Bool-cases (ltb n 128)) [
  | inl short ↦ rw short
  | inr long ↦ rw long (ap₂ put_byte (put_each-eq e _ ∙ ap (put_bytes e) same) count)
]
  where
    same : reverse (len_bytes 5 n) ≡ digits 5 n []
    same = sym (append-nil _) ∙ len_bytes-digits 5 n []

    count : 0x80 + length (len_bytes 5 n) ≡ 128 + length (digits 5 n [])
    count = omega (arith, length-digits 5 n [])

-- A length and a tag behind what was written, as one run.
pub header :
    (e : BerEnc) (bs : List ℕ) (tag : ℕ)
    → put_byte (put_len (put_bytes e bs) (length bs)) tag ≡ put_bytes e (tlv tag bs)
unfolding put_bytes
header e bs tag =
    ap (λ x. put_byte x tag)
      (put_len-eq (put_bytes e bs) (length bs)
        ∙ sym (put_bytes-append e (length_form (length bs)) bs))

-- The same, with the length measured from a mark: on overflow nothing more is written either way.
pub wrapped :
    (e : BerEnc) (bs : List ℕ) (tag : ℕ)
    → put_byte (put_len (put_bytes e bs) (e.pos - (put_bytes e bs).pos)) tag
      ≡ put_bytes e (tlv tag bs)
wrapped e bs tag = elim (Bool-cases (put_bytes e bs).overflow) [
  | inl full ↦
      ap (λ x. put_byte x tag) (put_len-eq _ _ ∙ put_bytes_full _ _ full)
      ∙ unfold put_bytes in
        put_bytes_full (put_bytes e bs) (tag ∷ []) full
        ∙ sym (put_bytes_full (put_bytes e bs) (tag ∷ length_form (length bs)) full)
        ∙ sym (put_bytes-append e (tag ∷ length_form (length bs)) bs)
  | inr fits ↦ rw (measured fits) (header e bs tag)
]
  where
    measured : (put_bytes e bs).overflow ≡ false → e.pos - (put_bytes e bs).pos ≡ length bs
    measured fits = omega (arith, (put_bytes-Wrote e bs).pos_down fits)

-- `ber_wrap` turns the bytes written since the mark into one element with its header; where the
-- header does not fit, both sides stop at the same byte.
pub ber_wrap-eq :
    (e : BerEnc) (bs : List ℕ) (tag : ℕ)
    → ber_wrap (put_bytes e bs) e.pos tag ≡ put_bytes e (tlv tag bs)
unfolding ber_wrap
ber_wrap-eq e bs tag = wrapped e bs tag

pub ber_put_octet_str-eq :
    (e : BerEnc) (s : List ℕ) → ber_put_octet_str e s ≡ put_bytes e (octet_tlv s)
unfolding ber_put_octet_str
ber_put_octet_str-eq e s = header e s tag_octet_str

pub ber_put_null-eq : (e : BerEnc) → ber_put_null e ≡ put_bytes e (tag_null ∷ 0 ∷ [])
unfolding ber_put_null put_bytes
ber_put_null-eq e = refl

pub ber_put_exception-eq :
    (e : BerEnc) (tag : ℕ) → ber_put_exception e tag ≡ put_bytes e (tag ∷ 0 ∷ [])
unfolding ber_put_exception put_bytes
ber_put_exception-eq e tag = refl
