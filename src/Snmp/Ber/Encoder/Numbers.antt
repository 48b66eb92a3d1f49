-- ===== src/Snmp/Ber/Encoder/Numbers.antt =====
-- The scratch arrays of `ber_put_int`, `ber_put_uint_tagged` and `ber_put_oid` are the number's bytes
-- and groups in the wire format, lowest first.
use microcontroller_devices.Prelude.{ℕ, zero, suc, ◌+◌, ◌-◌, ◌/◌, ◌%◌, ◌^◌, ◌≤◌, ◌<◌, ltb, leb}
use microcontroller_devices.Prelude.{◌≡◌, refl, sym, ap, ◌∙◌, arith, if◌then◌else◌}
use microcontroller_devices.Prelude.{Bool-cases, inl, inr, ◌⊎◌}
use native.Mathlib.Decide.{dec_lt}
use microcontroller_devices.Prelude.{List, [], ◌∷◌, ◌++◌, length, append-nil, reverse}
use microcontroller_devices.Snmp.Ber.Encoder.{
  shift_signed, int_bytes, uint_bytes, pad_sign, group_tail, subid_groups,
}
use microcontroller_devices.Snmp.Ber.Spec.{
  int_form, uint_form, big_endian, int_size, uint_size, groups, subid_form,
}
use microcontroller_devices.Snmp.Ber.Encoder.Form.{reverse-cons_append}

-- `v` in `n` little-endian bytes.
abbrev pub little_endian : ℕ → ℕ → List ℕ
little_endian zero v = []
little_endian (suc n) v = v % 256 ∷ little_endian n (v / 256)

reverse-little_endian :
    (n v : ℕ) (acc : List ℕ) → reverse (little_endian n v) ++ acc ≡ big_endian n v acc
reverse-little_endian zero v acc = refl
reverse-little_endian (suc n) v acc =
    reverse-cons_append (v % 256) (little_endian n (v / 256)) acc
    ∙ reverse-little_endian n (v / 256) (v % 256 ∷ acc)

length-little_endian : (n v : ℕ) → length (little_endian n v) ≡ n
length-little_endian zero v = refl
length-little_endian (suc n) v = ap suc (length-little_endian n (v / 256))

int_bytes_last :
    (f u : ℕ) → u < 2 ^ 7 ⊎ 2 ^ 32 - 2 ^ 7 ≤ u → u < 2 ^ 32 → int_bytes (suc f) u ≡ u % 256 ∷ []
unfolding int_bytes
int_bytes_last f u r h = ground arith

int_bytes_more :
    (f u : ℕ)
    → 2 ^ 7 ≤ u
    → u < 2 ^ 32 - 2 ^ 7
    → int_bytes (suc f) u ≡ u % 256 ∷ int_bytes f (shift_signed u)
unfolding int_bytes
int_bytes_more f u lo hi = ground arith

-- A number of either sign that fits `n + 1` bytes, sign bit included, is written in as many.
int_bytes_nonneg :
    (f u : ℕ)
    → u < 2 ^ 31
    → int_bytes (suc f) u
      ≡ (if ltb u (2 ^ 7) then u % 256 ∷ [] else u % 256 ∷ int_bytes f (u / 256))
int_bytes_nonneg f u h = ground (arith, int_bytes_last f u, int_bytes_more f u)

int_bytes_neg :
    (f u : ℕ)
    → 2 ^ 31 ≤ u
    → u < 2 ^ 32
    → int_bytes (suc f) u ≡ (
        if leb (2 ^ 32 - 2 ^ 7) u
        then u % 256 ∷ []
        else u % 256 ∷ int_bytes f (u / 256 + 0xFF000000))
int_bytes_neg f u l h = ground (arith, int_bytes_last f u, int_bytes_more f u)

int_bytes-eq : (v : ℕ) → v < 2 ^ 32 → int_bytes 4 v ≡ little_endian (int_size v) v
int_bytes-eq v h = elim (dec_lt v (2 ^ 31)) [
  | yes p ↦ ground (
    arith,
    int_bytes_nonneg 3 v,
    int_bytes_nonneg 2 (v / 256),
    int_bytes_nonneg 1 (v / 256 / 256),
    int_bytes_nonneg 0 (v / 256 / 256 / 256),
  )
  | no p ↦ ground (
    arith,
    int_bytes_neg 3 v,
    int_bytes_neg 2 (v / 256 + 0xFF000000),
    int_bytes_neg 1 ((v / 256 + 0xFF000000) / 256 + 0xFF000000),
    int_bytes_neg 0 (((v / 256 + 0xFF000000) / 256 + 0xFF000000) / 256 + 0xFF000000),
  )
]

-- The scratch array of `ber_put_int`, emitted.
pub reverse-int_bytes : (v : ℕ) → v < 2 ^ 32 → reverse (int_bytes 4 v) ≡ int_form v
unfolding int_form
reverse-int_bytes v h =
    ap reverse (int_bytes-eq v h) ∙ sym (append-nil _) ∙ reverse-little_endian (int_size v) v []

pub length-int_bytes : (v : ℕ) → v < 2 ^ 32 → length (int_bytes 4 v) ≡ int_size v
length-int_bytes v h = ap length (int_bytes-eq v h) ∙ length-little_endian (int_size v) v

uint_bytes-eq : (v : ℕ) → v < 2 ^ 32 → pad_sign (uint_bytes 4 v) ≡ little_endian (uint_size v) v
unfolding uint_bytes pad_sign
uint_bytes-eq v h = ground arith

-- The scratch array of `ber_put_uint_tagged`, emitted.
pub reverse-uint_bytes : (v : ℕ) → v < 2 ^ 32 → reverse (pad_sign (uint_bytes 4 v)) ≡ uint_form v
unfolding uint_form
reverse-uint_bytes v h =
    ap reverse (uint_bytes-eq v h) ∙ sym (append-nil _) ∙ reverse-little_endian (uint_size v) v []

pub length-uint_bytes : (v : ℕ) → v < 2 ^ 32 → length (pad_sign (uint_bytes 4 v)) ≡ uint_size v
length-uint_bytes v h = ap length (uint_bytes-eq v h) ∙ length-little_endian (uint_size v) v

group_tail-groups : (f v : ℕ) (acc : List ℕ) → reverse (group_tail f v) ++ acc ≡ groups f v acc
unfolding group_tail groups
group_tail-groups zero v acc = refl
group_tail-groups (suc f) v acc = elim (Bool-cases (ltb 0 v)) [
  | inl more ↦
      rw more (reverse-cons_append _ (group_tail f (v / 128)) acc ∙ group_tail-groups f (v / 128) _)
  | inr done ↦ rw done
]

pub reverse-subid_groups : (v : ℕ) → reverse (subid_groups v) ≡ subid_form v
unfolding subid_groups subid_form
reverse-subid_groups v =
    sym (append-nil _)
    ∙ reverse-cons_append (v % 128) (group_tail 4 (v / 128)) []
    ∙ group_tail-groups 4 (v / 128) (v % 128 ∷ [])
