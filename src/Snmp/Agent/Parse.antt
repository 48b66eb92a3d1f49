-- ===== src/Snmp/Agent/Parse.antt =====
-- About the requests that `parse_request` of lib/snmp/snmp_agent.c accepts.
use microcontroller_devices.Prelude.{ℕ, zero, suc, ◌+◌, ◌^◌, ◌≤◌, ◌<◌}
use microcontroller_devices.Prelude.{leb, ◌==◌, if◌then◌else◌}
use microcontroller_devices.Prelude.{◌≡◌, refl, arith, inl, inr}
use microcontroller_devices.Prelude.{Bool, true, Bool-cases}
use microcontroller_devices.Prelude.{Option, none, some, List, [], ◌∷◌}
use microcontroller_devices.Prelude.{length}
use mathlib.Core.Path.{subst}
use mathlib.Core.Option.{some-injective}
use microcontroller_devices.Prelude.Chain.{after_bind, after_guard}
use microcontroller_devices.Snmp.Ber.Encoder.{tag_integer, tag_sequence}
use microcontroller_devices.Snmp.Ber.Decoder.{
  ber_get_tlv, ber_enter, ber_get_int, ber_get_octet, ber_get_oid, int_content,
}
use microcontroller_devices.Snmp.Agent.{
  AgentConfig, ParsedReq, parse_request, parse_varbinds, same_bytes, nonempty, ber_max_oid_len,
  snmp_version_2c,
}

int_content-lt : (c : List ℕ) (v : ℕ) → int_content c ≡ some v → v < 2 ^ 32
unfolding int_content
int_content-lt [] v h = cc
int_content-lt (c ∷ cs) v h = ground arith

-- An int32 that the decoder returns is a 32-bit pattern.
pub ber_get_int-lt :
    (d : List ℕ) (v : ℕ) (rest : List ℕ) → ber_get_int d ≡ some (v, rest) → v < 2 ^ 32
unfolding ber_get_int
ber_get_int-lt d v rest h = go (ber_get_tlv d) h
  where
    go :
        (o : Option (ℕ × List ℕ × List ℕ))
        → (let w : Option (ℕ × List ℕ) = elim o [
          | none ↦ none
          | some (t, c, rest) ↦
              if t == tag_integer
              then elim (int_content c) [ none ↦ none | some v ↦ some (v, rest) ]
              else none
        ] in
            w)
          ≡ some (v, rest)
        → v < 2 ^ 32
    go none e = cc
    go (some (t, c, r)) e = ground (arith, int_content-lt c v)

pub same_bytes_sound : (xs ys : List ℕ) → same_bytes xs ys ≡ true → xs ≡ ys
unfolding same_bytes
same_bytes_sound [] [] h = refl
same_bytes_sound [] (y ∷ ys) h = cc
same_bytes_sound (x ∷ xs) [] h = cc
same_bytes_sound (x ∷ xs) (y ∷ ys) h = ground (arith, same_bytes_sound xs ys)

pub record IsAccepted (c : AgentConfig) (r : ParsedReq) : Type 0 where
  pub id : r.request_id < 2 ^ 32
  pub second : r.field2 < 2 ^ 32
  pub third : r.field3 < 2 ^ 32
  pub community : r.community ≡ c.read_community
  pub names_pos : 0 < length r.names
  pub names_le : length r.names ≤ c.max_req_vb

length-parse_varbinds :
    (fuel max n : ℕ) (d : List ℕ) (names : List (List ℕ)) (b : Bool)
    → n ≤ max
    → parse_varbinds fuel max n d ≡ some (names, b)
    → n + length names ≤ max
unfolding parse_varbinds
length-parse_varbinds fuel max n [] names b h e = ground arith
length-parse_varbinds zero max n (x ∷ xs) names b h e = cc
length-parse_varbinds (suc fuel) max n (x ∷ xs) names b h e =
    entered (ber_enter (x ∷ xs) tag_sequence)
      (λ rest k ns t. length-parse_varbinds fuel max (n + 1) rest ns t k) e
  where
    more :
        (rest : List ℕ) (oid : List ℕ) (o : Option (List (List ℕ) × Bool))
        → n < max
        → ((ns : List (List ℕ)) (t : Bool) → o ≡ some (ns, t) → n + 1 + length ns ≤ max)
        → (let w : Option (List (List ℕ) × Bool) = elim o [
          | none ↦ none
          | some (ns, t) ↦ some (oid ∷ ns, t)
        ] in
            w)
          ≡ some (names, b)
        → n + length names ≤ max
    more rest oid none l ih q = cc
    more rest oid (some (ns, t)) l ih q = ground (arith, ih ns t refl)

    named :
        (rest : List ℕ) (o : Option (List ℕ × List ℕ))
        → n < max
        → ((ns : List (List ℕ)) (t : Bool)
            → parse_varbinds fuel max (n + 1) rest ≡ some (ns, t)
            → n + 1 + length ns ≤ max)
        → (let w : Option (List (List ℕ) × Bool) = elim o [
          | none ↦ none
          | some (oid, _) ↦ elim (parse_varbinds fuel max (n + 1) rest) [
            | none ↦ none
            | some (ns, t) ↦ some (oid ∷ ns, t)
          ]
        ] in
            w)
          ≡ some (names, b)
        → n + length names ≤ max
    named rest none l ih q = cc
    named rest (some (oid, z)) l ih q = more rest oid (parse_varbinds fuel max (n + 1) rest) l ih q

    entered :
        (o : Option (List ℕ × List ℕ))
        → ((rest : List ℕ)
            → n + 1 ≤ max
            → (ns : List (List ℕ)) (t : Bool) → parse_varbinds fuel max (n + 1) rest ≡ some (ns, t)
            → n + 1 + length ns ≤ max)
        → (let w : Option (List (List ℕ) × Bool) = elim o [
          | none ↦ none
          | some (vb, rest) ↦
              if leb max n then some ([], true) else elim (ber_get_oid vb ber_max_oid_len) [
                | none ↦ none
                | some (oid, _) ↦ elim (parse_varbinds fuel max (n + 1) rest) [
                  | none ↦ none
                  | some (ns, t) ↦ some (oid ∷ ns, t)
                ]
              ]
        ] in
            w)
          ≡ some (names, b)
        → n + length names ≤ max
    entered none ih q = cc
    entered (some (vb, rest)) ih q = elim (Bool-cases (leb max n)) [
      | inl full ↦
          let p : ◌≡◌ {A = Option (List (List ℕ) × Bool)} (some ([], true)) (some (names, b)) =
            rw full at q in
          ground arith
      | inr room ↦
          named rest (ber_get_oid vb ber_max_oid_len) (ground arith) (ih rest (ground arith))
            (rw room at q)
    ]

nonempty_pos : (names : List (List ℕ)) → nonempty names ≡ true → 0 < length names
nonempty_pos [] h = cc
nonempty_pos (n ∷ ns) h = omega arith

-- A request that `parse_request` accepts is of the configured community, names between one
-- object and as many as the configuration allows, and its three numbers are 32-bit patterns.
pub parse_request-IsAccepted :
    (c : AgentConfig) (buf : List ℕ) (r : ParsedReq) → parse_request c buf ≡ some r → IsAccepted c r
unfolding parse_request
parse_request-IsAccepted c buf r e = after_bind (ber_enter buf tag_sequence) _ e (λ p1 e1 k1.
    after_bind (ber_get_int p1.0) _ k1 (λ p2 e2 k2.
      after_guard (p2.0 == snmp_version_2c) _ k2 (λ g2 k3.
        after_bind (ber_get_octet p2.1) _ k3 (λ p3 e3 k4.
          after_guard (same_bytes p3.0 c.read_community) _ k4 (λ g3 k5.
            after_bind (ber_get_tlv p3.1) _ k5 (λ p4 e4 k6.
              after_bind (ber_get_int p4.1) _ k6 (λ p5 e5 k7.
                after_bind (ber_get_int p5.1) _ k7 (λ p6 e6 k8.
                  after_bind (ber_get_int p6.1) _ k8 (λ p7 e7 k9.
                    after_bind (ber_enter p7.1 tag_sequence) _ k9 (λ p8 e8 k10.
                      after_bind (parse_varbinds (length p8.0) c.max_req_vb 0 p8.0) _ k10
                        (λ p9 e9 k11. after_guard (nonempty p9.0) _ k11 (λ g9 k12.
                          subst (IsAccepted c) (some-injective _ _ k12) (record {
                            id = ber_get_int-lt p4.1 p5.0 p5.1 e5;
                            second = ber_get_int-lt p5.1 p6.0 p6.1 e6;
                            third = ber_get_int-lt p6.1 p7.0 p7.1 e7;
                            community = same_bytes_sound p3.0 c.read_community g3;
                            names_pos = nonempty_pos p9.0 g9;
                            names_le = omega (
                              arith,
                              length-parse_varbinds (length p8.0) c.max_req_vb 0 p8.0 p9.0 p9.1
                                  (omega arith) e9,
                            );
                          })))))))))))))
