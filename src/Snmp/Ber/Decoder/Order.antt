-- ===== src/Snmp/Ber/Decoder/Order.antt =====
-- About `oid_cmp` of lib/snmp/snmp_ber.c as an order.
use microcontroller_devices.Prelude.{ℕ}
use microcontroller_devices.Prelude.{◌≡◌, refl, arith}
use microcontroller_devices.Prelude.{List, [], ◌∷◌}
use Prim.Native.Nat.{Ordering}
use microcontroller_devices.Snmp.Ber.Decoder.{oid_cmp}

pub oid_cmp_refl : (a : List ℕ) → oid_cmp a a ≡ Ordering.eq
unfolding oid_cmp
oid_cmp_refl [] = refl
oid_cmp_refl (x ∷ xs) = ground (arith, oid_cmp_refl xs)

pub oid_cmp_eq : (a b : List ℕ) → oid_cmp a b ≡ Ordering.eq → a ≡ b
unfolding oid_cmp
oid_cmp_eq [] [] h = refl
oid_cmp_eq [] (y ∷ ys) h = cc
oid_cmp_eq (x ∷ xs) [] h = cc
oid_cmp_eq (x ∷ xs) (y ∷ ys) h = ground (arith, oid_cmp_eq xs ys)

pub oid_cmp_swap : (a b : List ℕ) → oid_cmp a b ≡ Ordering.gt → oid_cmp b a ≡ Ordering.lt
unfolding oid_cmp
oid_cmp_swap [] [] h = cc
oid_cmp_swap [] (y ∷ ys) h = cc
oid_cmp_swap (x ∷ xs) [] h = refl
oid_cmp_swap (x ∷ xs) (y ∷ ys) h = ground (arith, oid_cmp_swap xs ys)

pub oid_cmp_swap' : (a b : List ℕ) → oid_cmp a b ≡ Ordering.lt → oid_cmp b a ≡ Ordering.gt
unfolding oid_cmp
oid_cmp_swap' [] [] h = cc
oid_cmp_swap' [] (y ∷ ys) h = refl
oid_cmp_swap' (x ∷ xs) [] h = cc
oid_cmp_swap' (x ∷ xs) (y ∷ ys) h = ground (arith, oid_cmp_swap' xs ys)

pub oid_cmp_trans :
    (a b c : List ℕ)
    → oid_cmp a b ≡ Ordering.lt
    → oid_cmp b c ≡ Ordering.lt
    → oid_cmp a c ≡ Ordering.lt
unfolding oid_cmp
oid_cmp_trans [] [] c h k = cc
oid_cmp_trans [] (y ∷ ys) [] h k = cc
oid_cmp_trans [] (y ∷ ys) (z ∷ zs) h k = refl
oid_cmp_trans (x ∷ xs) [] c h k = cc
oid_cmp_trans (x ∷ xs) (y ∷ ys) [] h k = cc
oid_cmp_trans (x ∷ xs) (y ∷ ys) (z ∷ zs) h k = ground (arith, oid_cmp_trans xs ys zs)
