-- ===== src/Snmp/Ber/Decoder/Numbers.antt =====
-- Reading back integers and OIDs of the wire format.
use native.Mathlib.Nat.{pow-suc}
use microcontroller_devices.Prelude.{ℕ, zero, suc, ◌+◌, ◌-◌, ◌*◌, ◌/◌, ◌%◌, ◌^◌, ◌≤◌, ◌<◌}
use microcontroller_devices.Prelude.{ltb, leb, ◌==◌}
use microcontroller_devices.Prelude.{◌≡◌, refl, ap, ap₂, ◌∙◌, arith, inl, inr}
use microcontroller_devices.Prelude.{Bool, false, Bool-cases}
use microcontroller_devices.Prelude.{Option, none, some, List, [], ◌∷◌, ◌++◌}
use microcontroller_devices.Prelude.{length, length-append, All}
use microcontroller_devices.Snmp.Ber.Encoder.{tag_integer, tag_oid}
use microcontroller_devices.Snmp.Ber.Decoder.{
  ber_get_int, int_content, int_value, ber_get_oid, oid_content, get_subids,
}
use microcontroller_devices.Snmp.Ber.Decoder.Tlv.{ber_get_tlv-tlv}
use microcontroller_devices.Snmp.Ber.Spec.{
  int_tlv, int_form, oid_tlv, oid_form, subid_form, subids_form, groups,
}

int_content-int_form : (v : ℕ) → v < 2 ^ 32 → int_content (int_form v) ≡ some v
unfolding int_content int_value int_form
int_content-int_form v h = ground arith

length-int_form_le : (v : ℕ) → length (int_form v) < 2 ^ 32
unfolding int_form
length-int_form_le v = ground arith

-- Every 32-bit integer is read back from its shortest two's-complement encoding, whatever
-- follows it.
pub ber_get_int-tlv :
    (v : ℕ) (rest : List ℕ) → v < 2 ^ 32 → ber_get_int (int_tlv v ++ rest) ≡ some (v, rest)
unfolding ber_get_int
ber_get_int-tlv v rest h =
    rw (ber_get_tlv-tlv tag_integer (int_form v) rest (length-int_form_le v), ber_get_int)
      (rw (int_content-int_form v h, ber_get_int))

groups-append : (f w : ℕ) (acc rest : List ℕ) → groups f w acc ++ rest ≡ groups f w (acc ++ rest)
unfolding groups
groups-append zero w acc rest = refl
groups-append (suc f) w acc rest = elim (Bool-cases (ltb 0 w)) [
  | inl more ↦ rw more (groups-append f (w / 128) ((w % 128 + 128) ∷ acc) rest)
  | inr done ↦ rw done
]

-- The groups above the lowest one add up to the number, whatever stood before them.
get_subids-groups :
    (f w room : ℕ) (inside : Bool) (c : ℕ) (cs : List ℕ)
    → w < 128 ^ f
    → w < 2 ^ 32
    → get_subids room 0 inside (groups f w (c ∷ cs)) ≡ get_subids room w inside (c ∷ cs)
unfolding groups
get_subids-groups zero w room inside c cs h k =
    ap (λ x. get_subids room x inside (c ∷ cs)) (omega arith)
get_subids-groups (suc f) w room inside c cs h k = elim (Bool-cases (ltb 0 w)) [
  | inl more ↦ rw more (
      get_subids-groups f (w / 128) room inside (w % 128 + 128) (c ∷ cs) (omega (arith, below))
        (omega arith)
      ∙ unfold get_subids in ground arith)
  | inr done ↦ rw done (ap (λ x. get_subids room x inside (c ∷ cs)) (ground arith))
]
  where
    below : w < 128 ^ f * 128
    below = rw pow-suc at h

abbrev push : ℕ → Option (List ℕ) → Option (List ℕ)
push v none = none
push v (some vs) = some (v ∷ vs)

get_subids_last :
    (room v : ℕ) (inside : Bool) (rest : List ℕ)
    → v < 2 ^ 32
    → get_subids (suc room) (v / 128) inside (v % 128 ∷ rest)
      ≡ push v (get_subids room 0 false rest)
unfolding get_subids
get_subids_last room v inside rest h =
    let e : suc room - 1 ≡ room = omega arith in
    let f : v / 128 * 128 % 2 ^ 32 + v % 128 % 128 ≡ v = omega arith in
    let g : leb 0x80 (v % 128) ≡ false = ground arith in
    let k : (suc room == 0) ≡ false = ground arith in
    rw (g, k, e) (ap (λ x. push x (get_subids room 0 false rest)) f)

get_subids-subid :
    (room v : ℕ) (rest : List ℕ)
    → v < 2 ^ 32
    → get_subids (suc room) 0 false (subid_form v ++ rest) ≡ push v (get_subids room 0 false rest)
unfolding subid_form
get_subids-subid room v rest h =
    ap (get_subids (suc room) 0 false) (groups-append 4 (v / 128) (v % 128 ∷ []) rest)
    ∙ get_subids-groups 4 (v / 128) (suc room) false (v % 128) rest (omega arith) (omega arith)
    ∙ get_subids_last room v false rest h

abbrev pub IsUint32 : ℕ → Type 0
IsUint32 v = v < 2 ^ 32

get_subids-subids_form :
    (vs : List ℕ) (room : ℕ)
    → All IsUint32 vs
    → length vs ≤ room
    → get_subids room 0 false (subids_form vs) ≡ some vs
unfolding subids_form
get_subids-subids_form [] room h l = unfold get_subids in refl
get_subids-subids_form (v ∷ vs) zero h l = absurd (omega arith)
get_subids-subids_form (v ∷ vs) (suc room) h l =
    get_subids-subid room v (subids_form vs) h.0
    ∙ ap (push v) (get_subids-subids_form vs room h.1 (omega arith))

-- The OIDs that the codec carries: two standard leading arcs, and arcs of 32 bits.
abbrev pub IsOid : List ℕ → Type 0
IsOid [] = ⊥
IsOid (a ∷ []) = ⊥
IsOid (a ∷ b ∷ rest) = (a < 3) × (b < 40) × All IsUint32 rest

subid_form_small : (v : ℕ) → v < 128 → subid_form v ≡ v ∷ []
unfolding subid_form groups
subid_form_small v h = ground arith

oid_content-oid_form :
    (max : ℕ) (oid : List ℕ)
    → IsOid oid
    → length oid ≤ max
    → oid_content max (oid_form oid) ≡ some oid
unfolding oid_form
oid_content-oid_form max [] h l = absurd h
oid_content-oid_form max (a ∷ []) h l = absurd h
oid_content-oid_form max (a ∷ b ∷ rest) (ha, hb, hr) l =
    ap (λ bs. oid_content max (bs ++ subids_form rest)) (subid_form_small first (omega arith))
    ∙ unfold oid_content in rw (large, get_subids-subids_form rest (max - 2) hr (omega arith)) heads
  where
    first : ℕ
    first = (a * 40 + b) % 2 ^ 32

    large : ltb max 2 ≡ false
    large = ground arith

    heads : some ((first / 40) ∷ (first % 40) ∷ rest) ≡ some (a ∷ b ∷ rest)
    heads = ap₂ (λ x y. some (x ∷ y ∷ rest)) (omega arith) (omega arith)

pub length-subids_form_le : (vs : List ℕ) → length (subids_form vs) ≤ 5 * length vs
unfolding subids_form
length-subids_form_le [] = omega arith
length-subids_form_le (v ∷ vs) =
    omega (arith, length-append (subid_form v) (subids_form vs), small v, length-subids_form_le vs)
  where
    small : (v : ℕ) → length (subid_form v) ≤ 5
    small v = unfold subid_form groups in ground arith

pub length-oid_form_le : (oid : List ℕ) → IsOid oid → length (oid_form oid) ≤ 5 * length oid
unfolding oid_form
length-oid_form_le [] h = absurd h
length-oid_form_le (a ∷ []) h = absurd h
length-oid_form_le (a ∷ b ∷ rest) h =
    rw (subid_form_small ((a * 40 + b) % 2 ^ 32) (omega arith))
      (omega (arith, length-subids_form_le rest))

-- An OID of two standard leading arcs and 32-bit arcs, no longer than the reader's limit (below
-- 2^29), is read back from its encoding, whatever follows it.
pub ber_get_oid-tlv :
    (oid rest : List ℕ) (max : ℕ)
    → IsOid oid
    → length oid ≤ max
    → max < 2 ^ 29
    → ber_get_oid (oid_tlv oid ++ rest) max ≡ some (oid, rest)
unfolding ber_get_oid
ber_get_oid-tlv oid rest max h l m =
    rw
      (
        ber_get_tlv-tlv tag_oid (oid_form oid) rest (omega (arith, length-oid_form_le oid h)),
        ber_get_oid,
      )
      (rw (oid_content-oid_form max oid h l, ber_get_oid))
