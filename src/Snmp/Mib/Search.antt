-- ===== src/Snmp/Mib/Search.antt =====
-- The lookups of the MIB view on a sorted table.
use microcontroller_devices.Prelude.{ℕ, zero, suc, ◌+◌, ◌≤◌}
use microcontroller_devices.Prelude.{◌≡◌, refl, sym, ap, ◌∙◌, arith, inl, inr, ◌↔◌}
use microcontroller_devices.Prelude.{true, false, Bool-cases}
use microcontroller_devices.Prelude.{none, some, List, [], ◌∷◌}
use microcontroller_devices.Prelude.{All}
use microcontroller_devices.Prelude.{get_elem?}
use Prim.Native.Nat.{Ordering}
use mathlib.Core.Path.{subst}
use mathlib.Core.Bool.{false≢true}
use microcontroller_devices.Snmp.Ber.Decoder.{oid_cmp}
use microcontroller_devices.Snmp.Ber.Decoder.Order.{
  oid_cmp_trans, oid_cmp_refl, oid_cmp_eq, oid_cmp_swap, oid_cmp_swap',
}
use microcontroller_devices.Snmp.Mib.{
  MibLeaf, mib_leaf_oid, Mib, leaf_cmp, is_eq, is_gt, find_exact, find_next, mib_get_exact,
}
use microcontroller_devices.Snmp.Mib.Table.{Precedes, IsSorted}

pub All-get_elem? {κ} :
    {A : Type 0} (P : A → Type κ) (ls : List A) (n : ℕ) (m : A)
    → All P ls
    → get_elem? ls n ≡ some m
    → P m
All-get_elem? P [] n m h e = cc
All-get_elem? P (l ∷ ls) zero m h e = subst P (cc) h.0
All-get_elem? P (l ∷ ls) (suc n) m h e = All-get_elem? P ls n m h.1 e

is_eq_lt : (a b : List ℕ) → Precedes a b → is_eq (oid_cmp a b) ≡ false
is_eq_lt a b h = rw h

pub is_gt_lt : (a b : List ℕ) → Precedes a b → is_gt (oid_cmp a b) ≡ false
is_gt_lt a b h = rw h

pub is_gt_gt : (a b : List ℕ) → Precedes b a → is_gt (oid_cmp a b) ≡ true
is_gt_gt a b h = rw (oid_cmp_swap' b a h)

is_gt→precedes : (a b : List ℕ) → is_gt (oid_cmp a b) ≡ true → Precedes b a
is_gt→precedes a b h = oid_cmp_swap a b (go (oid_cmp a b) h)
  where
    go : (o : Ordering) → is_gt o ≡ true → o ≡ Ordering.gt
    go Ordering.gt e = refl
    go Ordering.lt e = cc
    go Ordering.eq e = cc

is_eq→eq : (a b : List ℕ) → is_eq (oid_cmp a b) ≡ true → a ≡ b
is_eq→eq a b h = oid_cmp_eq a b (go (oid_cmp a b) h)
  where
    go : (o : Ordering) → is_eq o ≡ true → o ≡ Ordering.eq
    go Ordering.eq e = refl
    go Ordering.lt e = cc
    go Ordering.gt e = cc

-- On a sorted table the loop of `mib_get_exact` finds each leaf by its own OID.
find_exact_complete :
    (ls : List MibLeaf) (i j : ℕ) (l : MibLeaf)
    → IsSorted ls
    → get_elem? ls j ≡ some l
    → find_exact ls i (mib_leaf_oid l) ≡ some (i + j)
unfolding find_exact
find_exact_complete [] i j l s e = cc
find_exact_complete (x ∷ xs) i zero l s e =
    let q : x ≡ l = cc in rw (ap mib_leaf_oid q, oid_cmp_refl) (ap some (omega arith))
find_exact_complete (x ∷ xs) i (suc j) l s e =
    let p : Precedes (mib_leaf_oid x) (mib_leaf_oid l) =
      All-get_elem? (λ m. Precedes (mib_leaf_oid x) (mib_leaf_oid m)) xs j l s.0 e in
    rw (is_eq_lt (mib_leaf_oid x) (mib_leaf_oid l) p)
      (find_exact_complete xs (i + 1) j l s.1 e ∙ ap some (omega arith))

-- What the loop returns is the index of a leaf with the OID asked for.
find_exact_sound :
    (ls : List MibLeaf) (i k : ℕ) (oid : List ℕ)
    → find_exact ls i oid ≡ some k
    → (j : ℕ) × (l : MibLeaf) × (k ≡ i + j) × (get_elem? ls j ≡ some l) × (mib_leaf_oid l ≡ oid)
unfolding find_exact
find_exact_sound [] i k oid h = cc
find_exact_sound (x ∷ xs) i k oid h = elim (Bool-cases (is_eq (leaf_cmp x oid))) [
  | inl same ↦
      let e : some i ≡ some k = rw same at h in
      (0, x, ground arith, refl, is_eq→eq (mib_leaf_oid x) oid same)
  | inr other ↦
      let (j, l, e, g, o) = find_exact_sound xs (i + 1) k oid (rw other at h) in
      (suc j, l, omega arith, g, o)
]

-- On a sorted table `mib_get_exact` returns `k` exactly where leaf `k` exists and has the OID.
pub mib_get_exact_iff :
    (m : Mib) (oid : List ℕ) (k : ℕ)
    → IsSorted m.leaves
    → (mib_get_exact m oid ≡ some k)
      ↔ ((l : MibLeaf) × (get_elem? m.leaves k ≡ some l) × (mib_leaf_oid l ≡ oid))
unfolding mib_get_exact
mib_get_exact_iff m oid k s = (forth, back)
  where
    forth :
        find_exact m.leaves 0 oid ≡ some k
        → (l : MibLeaf) × (get_elem? m.leaves k ≡ some l) × (mib_leaf_oid l ≡ oid)
    forth h =
        let (j, l, e, g, o) = find_exact_sound m.leaves 0 k oid h in
        let q : k ≡ j = omega arith in (l, rw q g, o)

    back :
        (l : MibLeaf) × (get_elem? m.leaves k ≡ some l) × (mib_leaf_oid l ≡ oid)
        → find_exact m.leaves 0 oid ≡ some k
    back (l, g, o) = rw (← o) (find_exact_complete m.leaves 0 k l s g ∙ ap some (omega arith))

-- The first leaf of a sorted list decides where the leaves above `oid` begin.
abbrev pub From : List MibLeaf → List ℕ → ℕ → Type 0
From ls oid j =
    (n : ℕ) (l : MibLeaf) → get_elem? ls n ≡ some l → Precedes oid (mib_leaf_oid l) ↔ (j ≤ n)

Precedes-false : (a b : List ℕ) → is_gt (oid_cmp b a) ≡ false → ¬ (Precedes a b)
Precedes-false a b h p = false≢true (sym h ∙ is_gt_gt b a p)

pub find_next_sound :
    (ls : List MibLeaf) (i k : ℕ) (oid : List ℕ)
    → IsSorted ls
    → find_next ls i oid ≡ some k
    → (j : ℕ) × (l : MibLeaf) × (k ≡ i + j) × (get_elem? ls j ≡ some l) × From ls oid j
unfolding find_next
find_next_sound [] i k oid s h = cc
find_next_sound (x ∷ xs) i k oid s h = elim (Bool-cases (is_gt (leaf_cmp x oid))) [
  | inl above ↦
      let e : some i ≡ some k = rw above at h in
      (0, x, ground arith, refl, λ n l g. (λ _. omega arith, λ _. later above n l g))
  | inr below ↦
      let (j, l, e, g, f) = find_next_sound xs (i + 1) k oid s.1 (rw below at h) in
      (suc j, l, omega arith, g, shifted below j f)
]
  where
    later :
        is_gt (leaf_cmp x oid) ≡ true
        → (n : ℕ) (l : MibLeaf) → get_elem? (x ∷ xs) n ≡ some l
        → Precedes oid (mib_leaf_oid l)
    later above zero l g =
        subst (λ y. Precedes oid (mib_leaf_oid y)) (cc) (is_gt→precedes (mib_leaf_oid x) oid above)
    later above (suc n) l g =
        oid_cmp_trans oid (mib_leaf_oid x) (mib_leaf_oid l)
          (is_gt→precedes (mib_leaf_oid x) oid above)
          (All-get_elem? (λ m. Precedes (mib_leaf_oid x) (mib_leaf_oid m)) xs n l s.0 g)

    shifted : is_gt (leaf_cmp x oid) ≡ false → (j : ℕ) → From xs oid j → From (x ∷ xs) oid (suc j)
    shifted below j f zero l g = (
      λ p. absurd (
          Precedes-false oid (mib_leaf_oid x) below
            (subst (λ y. Precedes oid (mib_leaf_oid y)) (cc) p)),
      λ p. absurd (omega arith),
    )
    shifted below j f (suc n) l g =
        (λ p. omega (arith, (f n l g).0 p), λ p. (f n l g).1 (omega arith))

pub find_next-none :
    (ls : List MibLeaf) (i : ℕ) (oid : List ℕ)
    → find_next ls i oid ≡ none
    → (n : ℕ) (l : MibLeaf) → get_elem? ls n ≡ some l
    → ¬ (Precedes oid (mib_leaf_oid l))
unfolding find_next
find_next-none [] i oid h n l g p = cc
find_next-none (x ∷ xs) i oid h n l g p = elim (Bool-cases (is_gt (leaf_cmp x oid))) [
  | inl above ↦ let e : some i ≡ none = rw above at h in cc
  | inr below ↦ go below (λ n' g'. find_next-none xs (i + 1) oid (rw below at h) n' l g' p) n g
]
  where
    go :
        is_gt (leaf_cmp x oid) ≡ false
        → ((n : ℕ) → get_elem? xs n ≡ some l → ⊥)
        → (n : ℕ) → get_elem? (x ∷ xs) n ≡ some l
        → ⊥
    go below ih zero g =
        Precedes-false oid (mib_leaf_oid x) below
          (subst (λ y. Precedes oid (mib_leaf_oid y)) (cc) p)
    go below ih (suc n) g = ih n g
