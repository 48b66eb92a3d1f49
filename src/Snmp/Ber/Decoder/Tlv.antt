-- ===== src/Snmp/Ber/Decoder/Tlv.antt =====
-- Reading back the elements of the wire format.
use microcontroller_devices.Prelude.{ℕ, zero, suc, ◌+◌, ◌*◌, ◌/◌, ◌%◌, ◌^◌, ◌≤◌, ◌<◌, ltb}
use microcontroller_devices.Prelude.{◌≡◌, ap, ◌∙◌, arith}
use microcontroller_devices.Prelude.{Bool-cases, inl, inr, some}
use microcontroller_devices.Prelude.{
  List, [], ◌∷◌, ◌++◌, length, append_assoc, length-append, take, drop, take_append, drop_append,
  length-take, length-drop,
}
use native.Mathlib.Nat.{pow-suc}
use microcontroller_devices.Snmp.Ber.Decoder.{
  ber_get_tlv, get_value, be_value, ber_enter, ber_get_octet,
}
use microcontroller_devices.Snmp.Ber.Encoder.{tag_octet_str}
use microcontroller_devices.Snmp.Ber.Spec.{tlv, length_form, digits, octet_tlv}

be_value-digits :
    (f v : ℕ) (acc : List ℕ) → v < 256 ^ f → be_value 0 (digits f v acc) ≡ be_value v acc
unfolding be_value digits
be_value-digits zero v acc h = ap (λ k. be_value k acc) (omega arith)
be_value-digits (suc f) v acc h = elim (Bool-cases (ltb 0 v)) [
  | inl more ↦ rw more (
      be_value-digits f (v / 256) (v % 256 ∷ acc) (omega (arith, below))
      ∙ ap (λ k. be_value k acc) (omega arith))
  | inr done ↦ rw done (ap (λ k. be_value k acc) (ground arith))
]
  where
    below : v < 256 ^ f * 256
    below = rw pow-suc at h

pub length-digits_le : (v : ℕ) → v < 2 ^ 32 → length (digits 5 v []) ≤ 4
unfolding digits
length-digits_le v h = ground arith

length-digits_pos : (v : ℕ) → 0 < v → 0 < length (digits 5 v [])
unfolding digits
length-digits_pos v h = ground arith

get_value_append :
    (t : ℕ) (bs rest : List ℕ) → get_value t (length bs) (bs ++ rest) ≡ some (t, bs, rest)
unfolding get_value
get_value_append t bs rest = rw (take_append, drop_append) (ground (arith, length-append bs rest))

get_long :
    (t n : ℕ) (ds p : List ℕ)
    → 0 < length ds
    → length ds ≤ 4
    → be_value 0 ds ≡ n
    → ber_get_tlv (t ∷ (128 + length ds) ∷ (ds ++ p)) ≡ get_value t n p
unfolding ber_get_tlv
get_long t n ds p pos le e = ground (arith, take_append ds p, drop_append ds p, length-append ds p)

get_short :
    (t : ℕ) (bs p : List ℕ)
    → length bs < 128
    → ber_get_tlv (t ∷ length bs ∷ p) ≡ get_value t (length bs) p
unfolding ber_get_tlv
get_short t bs p h = ground arith

-- An element of a tag, a definite length and fewer than 2^32 bytes of content is read back
-- whole, whatever follows it.
pub ber_get_tlv-tlv :
    (tag : ℕ) (bs rest : List ℕ)
    → length bs < 2 ^ 32
    → ber_get_tlv (tlv tag bs ++ rest) ≡ some (tag, bs, rest)
unfolding length_form be_value
ber_get_tlv-tlv tag bs rest h = elim (Bool-cases (ltb (length bs) 128)) [
  | inl short ↦
      rw short (get_short tag bs (bs ++ rest) (ground arith) ∙ get_value_append tag bs rest)
  | inr long ↦
      rw (long, append_assoc)
        (get_long tag (length bs) (digits 5 (length bs) []) (bs ++ rest)
            (length-digits_pos (length bs) (ground arith)) (length-digits_le (length bs) h)
            (be_value-digits 5 (length bs) [] (omega arith))
          ∙ get_value_append tag bs rest)
]

-- Entering an element of the tag asked for gives its content.
pub ber_enter-tlv :
    (tag : ℕ) (bs rest : List ℕ)
    → length bs < 2 ^ 32
    → ber_enter (tlv tag bs ++ rest) tag ≡ some (bs, rest)
unfolding ber_enter
ber_enter-tlv tag bs rest h = rw (ber_get_tlv-tlv tag bs rest h, ber_enter) (ground arith)

pub ber_get_octet-tlv :
    (bs rest : List ℕ) → length bs < 2 ^ 32 → ber_get_octet (octet_tlv bs ++ rest) ≡ some (bs, rest)
unfolding ber_get_octet
ber_get_octet-tlv bs rest h =
    rw (ber_get_tlv-tlv tag_octet_str bs rest h, ber_get_octet) (ground arith)

get_value_within :
    (t len : ℕ) (p : List ℕ) (t' : ℕ) (c rest : List ℕ)
    → get_value t len p ≡ some (t', c, rest)
    → length c + length rest ≡ length p
unfolding get_value
get_value_within t len p t' c rest e = ground (arith, length-take len p, length-drop len p)

-- The content and the rest that `ber_get_tlv` returns are together at least two bytes shorter
-- than its input.
pub ber_get_tlv_within :
    (d : List ℕ) (t : ℕ) (c rest : List ℕ)
    → ber_get_tlv d ≡ some (t, c, rest)
    → length c + length rest + 2 ≤ length d
unfolding ber_get_tlv
ber_get_tlv_within [] t' c rest e = cc
ber_get_tlv_within (t ∷ []) t' c rest e = cc
ber_get_tlv_within (t ∷ l0 ∷ p) t' c rest e =
    let nbytes = l0 % 128 in
    ground (
      arith,
      get_value_within t l0 p t' c rest,
      get_value_within t (be_value 0 (take nbytes p)) (drop nbytes p) t' c rest,
      length-drop nbytes p,
    )
