-- ===== src/Snmp/Ber/Decoder.antt =====
-- The forward decoder of lib/snmp/snmp_ber.c. A decoder `{p, end}` is the list of the bytes that it
-- has not consumed; `none` is a `false` result, after which no caller uses the decoder again.
pub mod Order
pub mod Tlv
pub mod Numbers
use microcontroller_devices.Prelude.{ℕ, zero, suc, ◌+◌, ◌-◌, ◌*◌, ◌/◌, ◌%◌, ◌^◌, ltb, leb, ◌==◌}
use microcontroller_devices.Prelude.{Bool, true, false, ◌&&◌, ◌||◌, if◌then◌else◌}
use microcontroller_devices.Prelude.{List, [], ◌∷◌, length, take, drop, Option, none, some}
use Prim.Native.Nat.{compare, Ordering}
use microcontroller_devices.Snmp.Ber.Encoder.{tag_integer, tag_octet_str, tag_oid}

-- `len = (len << 8) | *d->p++`, over the length's bytes.
unfoldable pub be_value : ℕ → List ℕ → ℕ
be_value len [] = len
be_value len (b ∷ bs) = be_value (len * 256 + b) bs

-- The check that the value is not truncated, and the split behind it.
unfoldable pub get_value : ℕ → ℕ → List ℕ → Option (ℕ × List ℕ × List ℕ)
get_value t len p = if ltb (length p) len then none else some (t, take len p, drop len p)

-- The tag, the content, and what follows the element.
unfoldable pub ber_get_tlv : List ℕ → Option (ℕ × List ℕ × List ℕ)
ber_get_tlv [] = none
ber_get_tlv (t ∷ []) = none
ber_get_tlv (t ∷ l0 ∷ p) =
    if ltb l0 0x80
    then get_value t l0 p
    else (let nbytes = l0 % 128 in
        if nbytes == 0 || ltb 4 nbytes || ltb (length p) nbytes
        then none
        else get_value t (be_value 0 (take nbytes p)) (drop nbytes p))

-- The content as a nested decoder, and the outer one behind it.
unfoldable pub ber_enter : List ℕ → ℕ → Option (List ℕ × List ℕ)
ber_enter d tag = elim (ber_get_tlv d) [
  | none ↦ none
  | some (t, c, rest) ↦ if t == tag then some (c, rest) else none
]

-- `val = (val << 8) | c[i]` on an int64_t, as its bit pattern.
unfoldable pub int_value : ℕ → List ℕ → ℕ
int_value val [] = val
int_value val (b ∷ bs) = int_value (val * 256 % 2 ^ 64 + b) bs

-- The sign extension from the first byte, and the cast to int32_t.
unfoldable pub int_content : List ℕ → Option ℕ
int_content [] = none
int_content (c ∷ cs) =
    if ltb 5 (length (c ∷ cs))
    then none
    else some (int_value (if leb 0x80 c then 2 ^ 64 - 1 else 0) (c ∷ cs) % 2 ^ 32)

unfoldable pub ber_get_int : List ℕ → Option (ℕ × List ℕ)
ber_get_int d = elim (ber_get_tlv d) [
  | none ↦ none
  | some (t, c, rest) ↦
      if t == tag_integer
      then elim (int_content c) [ none ↦ none | some v ↦ some (v, rest) ]
      else none
]

unfoldable pub ber_get_octet : List ℕ → Option (List ℕ × List ℕ)
ber_get_octet d = elim (ber_get_tlv d) [
  | none ↦ none
  | some (t, c, rest) ↦ if t == tag_octet_str then some (c, rest) else none
]

-- The two nested loops of `ber_get_oid` over the bytes that are left: `room` is `max - cnt`, `v` the
-- groups read so far, and `inside` tells that the last byte had its continuation bit.
unfoldable pub get_subids : ℕ → ℕ → Bool → List ℕ → Option (List ℕ)
get_subids room v inside [] = if inside then none else some []
get_subids room v inside (b ∷ bs) =
    let v' = v * 128 % 2 ^ 32 + b % 128 in
    let more = get_subids room v' true bs in
    let next = get_subids (room - 1) 0 false bs in
    if leb 0x80 b
    then more
    else (if room == 0 then none else elim next [ none ↦ none | some vs ↦ some (v' ∷ vs) ])

unfoldable pub oid_content : ℕ → List ℕ → Option (List ℕ)
oid_content max [] = none
oid_content max (c ∷ cs) = if ltb max 2 then none else elim (get_subids (max - 2) 0 false cs) [
  | none ↦ none
  | some vs ↦ some ((c / 40) ∷ (c % 40) ∷ vs)
]

unfoldable pub ber_get_oid : List ℕ → ℕ → Option (List ℕ × List ℕ)
ber_get_oid d max = elim (ber_get_tlv d) [
  | none ↦ none
  | some (t, c, rest) ↦
      if t == tag_oid
      then elim (oid_content max c) [ none ↦ none | some vs ↦ some (vs, rest) ]
      else none
]

pub ber_skip : List ℕ → Option (List ℕ)
ber_skip d = elim (ber_get_tlv d) [ none ↦ none | some (t, c, rest) ↦ some rest ]

-- The arcs in common decide first, then the lengths.
unfoldable pub oid_cmp : List ℕ → List ℕ → Ordering
oid_cmp [] [] = Ordering.eq
oid_cmp [] (b ∷ bs) = Ordering.lt
oid_cmp (a ∷ as') [] = Ordering.gt
oid_cmp (a ∷ as') (b ∷ bs) = elim (compare a b) [
  | Ordering.eq ↦ oid_cmp as' bs
  | Ordering.lt ↦ Ordering.lt
  | Ordering.gt ↦ Ordering.gt
]
