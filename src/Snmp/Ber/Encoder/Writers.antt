-- ===== src/Snmp/Ber/Encoder/Writers.antt =====
-- The number and OID writers as runs of `put_bytes` over the wire format.
use microcontroller_devices.Prelude.{ℕ, zero, suc, ◌+◌, ◌-◌, ◌*◌, ◌/◌, ◌%◌, ◌^◌, ◌<◌}
use microcontroller_devices.Prelude.{◌≡◌, refl, sym, ap, ap₂, ◌∙◌, arith}
use microcontroller_devices.Prelude.{List, [], ◌∷◌, ◌++◌, length, reverse}
use microcontroller_devices.Snmp.Ber.Encoder.{
  BerEnc, put_byte, put_bytes, put_each, put_len, ber_put_int, ber_put_uint_tagged, ber_put_oid,
  ber_put_ipaddress, int_bytes, uint_bytes, pad_sign, subid_groups, put_subids, tag_integer,
  tag_oid, tag_ipaddress,
}
use microcontroller_devices.Snmp.Ber.Encoder.Buffer.{put_bytes-append, put_each-eq}
use microcontroller_devices.Snmp.Ber.Encoder.Form.{header, wrapped}
use microcontroller_devices.Snmp.Ber.Encoder.Numbers.{
  reverse-int_bytes, length-int_bytes, reverse-uint_bytes, length-uint_bytes, reverse-subid_groups,
}
use microcontroller_devices.Snmp.Ber.Spec.{
  tlv, int_form, uint_form, big_endian, int_size, uint_size, subid_form, subids_form, oid_form,
  int_tlv, oid_tlv,
}

length-big_endian : (n v : ℕ) (acc : List ℕ) → length (big_endian n v acc) ≡ n + length acc
length-big_endian zero v acc = omega arith
length-big_endian (suc n) v acc = omega (arith, length-big_endian n (v / 256) (v % 256 ∷ acc))

pub length-int_form : (v : ℕ) → length (int_form v) ≡ int_size v
unfolding int_form
length-int_form v = omega (arith, length-big_endian (int_size v) v [])

pub length-uint_form : (v : ℕ) → length (uint_form v) ≡ uint_size v
unfolding uint_form
length-uint_form v = omega (arith, length-big_endian (uint_size v) v [])

-- A scratch array that reads `bs` backwards, its length and a tag.
scratch :
    (e : BerEnc) (tmp bs : List ℕ) (tag : ℕ)
    → reverse tmp ≡ bs
    → length tmp ≡ length bs
    → put_byte (put_len (put_each e tmp) (length tmp)) tag ≡ put_bytes e (tlv tag bs)
scratch e tmp bs tag r n =
    ap₂ (λ x k. put_byte (put_len x k) tag) (put_each-eq e tmp ∙ ap (put_bytes e) r) n
    ∙ header e bs tag

-- `ber_put_int` writes the shortest two's-complement encoding of a 32-bit integer and nothing
-- else.
pub ber_put_int-eq : (e : BerEnc) (v : ℕ) → v < 2 ^ 32 → ber_put_int e v ≡ put_bytes e (int_tlv v)
unfolding ber_put_int
ber_put_int-eq e v h =
    scratch e (int_bytes 4 v) (int_form v) tag_integer (reverse-int_bytes v h)
      (length-int_bytes v h ∙ sym (length-int_form v))

pub ber_put_uint_tagged-eq :
    (e : BerEnc) (v tag : ℕ)
    → v < 2 ^ 32
    → ber_put_uint_tagged e v tag ≡ put_bytes e (tlv tag (uint_form v))
unfolding ber_put_uint_tagged
ber_put_uint_tagged-eq e v tag h =
    scratch e (pad_sign (uint_bytes 4 v)) (uint_form v) tag (reverse-uint_bytes v h)
      (length-uint_bytes v h ∙ sym (length-uint_form v))

put_groups :
    (e : BerEnc) (v : ℕ) (bs : List ℕ)
    → put_each (put_bytes e bs) (subid_groups v) ≡ put_bytes e (subid_form v ++ bs)
put_groups e v bs =
    put_each-eq (put_bytes e bs) (subid_groups v)
    ∙ ap (put_bytes (put_bytes e bs)) (reverse-subid_groups v)
    ∙ sym (put_bytes-append e (subid_form v) bs)

put_subids-eq : (e : BerEnc) (vs : List ℕ) → put_subids e vs ≡ put_bytes e (subids_form vs)
unfolding put_subids subids_form put_bytes
put_subids-eq e [] = refl
put_subids-eq e (v ∷ vs) =
    ap (λ x. put_each x (subid_groups v)) (put_subids-eq e vs) ∙ put_groups e v (subids_form vs)

-- `ber_put_oid` writes the OID's encoding and nothing else, for every OID; where it does not
-- fit, both sides stop at the same byte.
pub ber_put_oid-eq : (e : BerEnc) (oid : List ℕ) → ber_put_oid e oid ≡ put_bytes e (oid_tlv oid)
unfolding ber_put_oid oid_form
ber_put_oid-eq e [] = unfold put_bytes in header e [] tag_oid
ber_put_oid-eq e (a ∷ []) = unfold put_bytes in header e [] tag_oid
ber_put_oid-eq e (a ∷ b ∷ rest) =
    ap (λ x. put_byte (put_len x (e.pos - x.pos)) tag_oid) body ∙ wrapped e content tag_oid
  where
    first : ℕ
    first = (a * 40 + b) % 2 ^ 32

    content : List ℕ
    content = subid_form first ++ subids_form rest

    body : put_each (put_subids e rest) (subid_groups first) ≡ put_bytes e content
    body =
        ap (λ x. put_each x (subid_groups first)) (put_subids-eq e rest)
        ∙ put_groups e first (subids_form rest)

pub ber_put_ipaddress-eq :
    (e : BerEnc) (addr : List ℕ)
    → length addr ≡ 4
    → ber_put_ipaddress e addr ≡ put_bytes e (tlv tag_ipaddress addr)
unfolding ber_put_ipaddress
ber_put_ipaddress-eq e addr h =
    ap (λ n. put_byte (put_len (put_bytes e addr) n) tag_ipaddress) (sym h)
    ∙ header e addr tag_ipaddress
