-- ===== src/Snmp/Agent/Fuel.antt =====
-- About the fuel of the loop over the varbind list, `parse_varbinds`.
use microcontroller_devices.Prelude.{ℕ, zero, suc, ◌+◌, ◌≤◌}
use microcontroller_devices.Prelude.{leb, ◌==◌, if◌then◌else◌}
use microcontroller_devices.Prelude.{◌≡◌, refl, ap, arith}
use microcontroller_devices.Prelude.{Bool, true}
use microcontroller_devices.Prelude.{Option, none, some, List, [], ◌∷◌}
use microcontroller_devices.Prelude.{length}
use microcontroller_devices.Snmp.Ber.Encoder.{tag_sequence}
use microcontroller_devices.Snmp.Ber.Decoder.{ber_get_tlv, ber_enter, ber_get_oid}
use microcontroller_devices.Snmp.Ber.Decoder.Tlv.{ber_get_tlv_within}
use microcontroller_devices.Snmp.Agent.{parse_varbinds, ber_max_oid_len}

-- Entering an element consumes at least its two header bytes.
ber_enter_within :
    (d : List ℕ) (tag : ℕ) (c rest : List ℕ)
    → ber_enter d tag ≡ some (c, rest)
    → length rest + 2 ≤ length d
unfolding ber_enter
ber_enter_within d tag c rest h = go (ber_get_tlv d) refl h
  where
    go :
        (o : Option (ℕ × List ℕ × List ℕ))
        → ber_get_tlv d ≡ o
        → (let w : Option (List ℕ × List ℕ) = elim o [
          | none ↦ none
          | some (t, c, rest) ↦ if t == tag then some (c, rest) else none
        ] in
            w)
          ≡ some (c, rest)
        → length rest + 2 ≤ length d
    go none e q = cc
    go (some (t, c', rest')) e q =
        let w : length c' + length rest' + 2 ≤ length d = ber_get_tlv_within d t c' rest' e in
        ground (arith, w)

-- The fuel of `parse_varbinds` does not run out: any two amounts that are at least the number of
-- bytes of the list give the same result, and `parse_request` gives that number.
pub parse_varbinds_enough :
    (fuel more max n : ℕ) (d : List ℕ)
    → length d ≤ fuel
    → length d ≤ more
    → parse_varbinds fuel max n d ≡ parse_varbinds more max n d
unfolding parse_varbinds
parse_varbinds_enough zero zero max n [] h k = refl
parse_varbinds_enough zero (suc more) max n [] h k = refl
parse_varbinds_enough (suc fuel) zero max n [] h k = refl
parse_varbinds_enough (suc fuel) (suc more) max n [] h k = refl
parse_varbinds_enough zero more max n (x ∷ xs) h k = absurd (omega arith)
parse_varbinds_enough (suc fuel) zero max n (x ∷ xs) h k = absurd (omega arith)
parse_varbinds_enough (suc fuel) (suc more) max n (x ∷ xs) h k =
    entered (ber_enter (x ∷ xs) tag_sequence) refl
      (λ rest p q. parse_varbinds_enough fuel more max (n + 1) rest p q)
  where
    named :
        (rest : List ℕ) (o : Option (List ℕ × List ℕ))
        → parse_varbinds fuel max (n + 1) rest ≡ parse_varbinds more max (n + 1) rest
        → (let w : Option (List (List ℕ) × Bool) = elim o [
          | none ↦ none
          | some (oid, _) ↦ elim (parse_varbinds fuel max (n + 1) rest) [
            | none ↦ none
            | some (ns, t) ↦ some (oid ∷ ns, t)
          ]
        ] in
            w)
          ≡ (let w : Option (List (List ℕ) × Bool) = elim o [
            | none ↦ none
            | some (oid, _) ↦ elim (parse_varbinds more max (n + 1) rest) [
              | none ↦ none
              | some (ns, t) ↦ some (oid ∷ ns, t)
            ]
          ] in
              w)
    named rest none ih = refl
    named rest (some (oid, z)) ih =
        ap (λ p. elim p [ none ↦ none | some (ns, t) ↦ some (oid ∷ ns, t) ]) ih

    entered :
        (o : Option (List ℕ × List ℕ))
        → ber_enter (x ∷ xs) tag_sequence ≡ o
        → ((rest : List ℕ)
            → length rest ≤ fuel
            → length rest ≤ more
            → parse_varbinds fuel max (n + 1) rest ≡ parse_varbinds more max (n + 1) rest)
        → (let w : Option (List (List ℕ) × Bool) = elim o [
          | none ↦ none
          | some (vb, rest) ↦
              if leb max n then some ([], true) else elim (ber_get_oid vb ber_max_oid_len) [
                | none ↦ none
                | some (oid, _) ↦ elim (parse_varbinds fuel max (n + 1) rest) [
                  | none ↦ none
                  | some (ns, t) ↦ some (oid ∷ ns, t)
                ]
              ]
        ] in
            w)
          ≡ (let w : Option (List (List ℕ) × Bool) = elim o [
            | none ↦ none
            | some (vb, rest) ↦
                if leb max n then some ([], true) else elim (ber_get_oid vb ber_max_oid_len) [
                  | none ↦ none
                  | some (oid, _) ↦ elim (parse_varbinds more max (n + 1) rest) [
                    | none ↦ none
                    | some (ns, t) ↦ some (oid ∷ ns, t)
                  ]
                ]
          ] in
              w)
    entered none e ih = refl
    entered (some (vb, rest)) e ih =
        let shorter : length rest + 2 ≤ length (x ∷ xs) =
          ber_enter_within (x ∷ xs) tag_sequence vb rest e in
        ap (λ r. if leb max n then some ([], true) else r)
          (named rest (ber_get_oid vb ber_max_oid_len)
            (ih rest (omega (arith, shorter)) (omega (arith, shorter))))
