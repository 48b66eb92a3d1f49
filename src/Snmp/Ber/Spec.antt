-- ===== src/Snmp/Ber/Spec.antt =====
-- The wire format that lib/snmp/snmp_ber.c implements, as plain byte lists (ASN.1 BER, definite
-- lengths). Nothing here is translated from the code.
use microcontroller_devices.Prelude.{ℕ, zero, suc, ◌+◌, ◌-◌, ◌*◌, ◌/◌, ◌%◌, ◌^◌, ltb, leb}
use microcontroller_devices.Prelude.{if◌then◌else◌}
use microcontroller_devices.Prelude.{List, [], ◌∷◌, ◌++◌, length}
use microcontroller_devices.Snmp.Ber.Encoder.{tag_integer, tag_octet_str, tag_null, tag_oid}
use microcontroller_devices.Snmp.Ber.Encoder.{tag_sequence}

-- The base 256 digits of `v`, the highest first, in front of `acc`; `f` bounds their number.
unfoldable pub digits : ℕ → ℕ → List ℕ → List ℕ
digits zero v acc = acc
digits (suc f) v acc =
    let more = digits f (v / 256) (v % 256 ∷ acc) in if ltb 0 v then more else acc

-- The short form of a length, or the long one.
unfoldable pub length_form : ℕ → List ℕ
length_form n = if ltb n 128 then n ∷ [] else (let ds = digits 5 n [] in (128 + length ds) ∷ ds)

abbrev pub tlv : ℕ → List ℕ → List ℕ
tlv tag content = tag ∷ length_form (length content) ++ content

-- `v` in `n` big-endian bytes, in front of `acc`.
abbrev pub big_endian : ℕ → ℕ → List ℕ → List ℕ
big_endian zero v acc = acc
big_endian (suc n) v acc = big_endian n (v / 256) (v % 256 ∷ acc)

-- The bytes that a two's complement int32 pattern needs.
abbrev pub int_size : ℕ → ℕ
int_size v =
    if ltb v (2 ^ 7)
    then 1
    else (if leb (2 ^ 32 - 2 ^ 7) v
        then 1
        else (if ltb v (2 ^ 15)
            then 2
            else (if leb (2 ^ 32 - 2 ^ 15) v
                then 2
                else (if ltb v (2 ^ 23) then 3 else (if leb (2 ^ 32 - 2 ^ 23) v then 3 else 4)))))

unfoldable pub int_form : ℕ → List ℕ
int_form v = big_endian (int_size v) v []

-- The bytes that a uint32 needs with a sign bit of 0.
abbrev pub uint_size : ℕ → ℕ
uint_size v =
    if ltb v (2 ^ 7)
    then 1
    else (if ltb v (2 ^ 15)
        then 2
        else (if ltb v (2 ^ 23) then 3 else (if ltb v (2 ^ 31) then 4 else 5)))

unfoldable pub uint_form : ℕ → List ℕ
uint_form v = big_endian (uint_size v) v []

-- The base 128 groups of `v` above the lowest, each with its continuation bit, in front of `acc`.
unfoldable pub groups : ℕ → ℕ → List ℕ → List ℕ
groups zero v acc = acc
groups (suc f) v acc =
    let more = groups f (v / 128) ((v % 128 + 128) ∷ acc) in if ltb 0 v then more else acc

unfoldable pub subid_form : ℕ → List ℕ
subid_form v = groups 4 (v / 128) (v % 128 ∷ [])

unfoldable pub subids_form : List ℕ → List ℕ
subids_form [] = []
subids_form (v ∷ vs) = subid_form v ++ subids_form vs

-- The content of an OID of two arcs at least.
unfoldable pub oid_form : List ℕ → List ℕ
oid_form [] = []
oid_form (a ∷ []) = []
oid_form (a ∷ b ∷ rest) = subid_form ((a * 40 + b) % 2 ^ 32) ++ subids_form rest

abbrev pub int_tlv : ℕ → List ℕ
int_tlv v = tlv tag_integer (int_form v)

abbrev pub octet_tlv : List ℕ → List ℕ
octet_tlv s = tlv tag_octet_str s

abbrev pub oid_tlv : List ℕ → List ℕ
oid_tlv oid = tlv tag_oid (oid_form oid)

abbrev pub sequence_tlv : List ℕ → List ℕ
sequence_tlv content = tlv tag_sequence content

abbrev pub null_tlv : List ℕ
null_tlv = tag_null ∷ 0 ∷ []
