-- ===== src/Snmp/Mib/Walk.antt =====
-- GETNEXT on the MIB view of lib/snmp/snmp_mib.c.
use microcontroller_devices.Prelude.{ℕ, zero, suc, ◌+◌, ◌<◌}
use microcontroller_devices.Prelude.{leb, if◌then◌else◌}
use microcontroller_devices.Prelude.{◌≡◌, refl, sym, ap, ◌∙◌, arith}
use microcontroller_devices.Prelude.{Option, none, some, List, [], ◌∷◌}
use microcontroller_devices.Prelude.{length, All}
use microcontroller_devices.Prelude.{get_elem?}
use microcontroller_devices.Snmp.Ber.Decoder.Order.{oid_cmp_refl}
use microcontroller_devices.Snmp.Mib.{
  MibLeaf, mib_leaf_oid, Mib, find_next, mib_get_next, mib_next_leaf,
}
use microcontroller_devices.Snmp.Mib.Table.{Precedes, IsSorted}
use microcontroller_devices.Snmp.Mib.Search.{
  From, find_next_sound, find_next-none, All-get_elem?, is_gt_lt, is_gt_gt,
}

-- On a sorted table the answer of `mib_get_next` is where the leaves above the OID begin: the
-- leaves from `k` on are above it, and no leaf before `k` is.
pub mib_get_next_least :
    (m : Mib) (oid : List ℕ) (k : ℕ)
    → IsSorted m.leaves
    → mib_get_next m oid ≡ some k
    → (k < length m.leaves) × From m.leaves oid k
unfolding mib_get_next
mib_get_next_least m oid k s h =
    let (j, l, e, g, f) = find_next_sound m.leaves 0 k oid s h in
    let q : k ≡ j = omega arith in (rw q (get_elem?_lt m.leaves j l g), rw q f)
  where
    get_elem?_lt :
        (ls : List MibLeaf) (n : ℕ) (l : MibLeaf) → get_elem? ls n ≡ some l → n < length ls
    get_elem?_lt [] n l g = cc
    get_elem?_lt (x ∷ xs) zero l g = omega arith
    get_elem?_lt (x ∷ xs) (suc n) l g = omega (arith, get_elem?_lt xs n l g)

-- `mib_get_next` answers NULL only where no leaf of the table is above the OID.
pub mib_get_next-none :
    (m : Mib) (oid : List ℕ)
    → mib_get_next m oid ≡ none
    → (n : ℕ) (l : MibLeaf) → get_elem? m.leaves n ≡ some l
    → ¬ (Precedes oid (mib_leaf_oid l))
unfolding mib_get_next
mib_get_next-none m oid h = find_next-none m.leaves 0 oid h

-- The leaf behind index `j`, if there is one.
abbrev after : List MibLeaf → ℕ → ℕ → Option ℕ
after ls i j = if leb (length ls) (j + 1) then none else some (i + (j + 1))

find_next_head :
    (x : MibLeaf) (xs : List MibLeaf) (i : ℕ)
    → All (λ m. Precedes (mib_leaf_oid x) (mib_leaf_oid m)) xs
    → find_next xs i (mib_leaf_oid x) ≡ (if leb (length xs) 0 then none else some i)
unfolding find_next
find_next_head x [] i h = refl
find_next_head x (y ∷ ys) i h = rw (is_gt_gt (mib_leaf_oid y) (mib_leaf_oid x) h.0) (ground arith)

find_next_at :
    (ls : List MibLeaf) (i j : ℕ) (l : MibLeaf)
    → IsSorted ls
    → get_elem? ls j ≡ some l
    → find_next ls i (mib_leaf_oid l) ≡ after ls i j
unfolding find_next
find_next_at [] i j l s g = cc
find_next_at (x ∷ xs) i zero l s g =
    let q : x ≡ l = cc in
    rw (← ap mib_leaf_oid q, oid_cmp_refl) (find_next_head x xs (i + 1) s.0 ∙ ground arith)
find_next_at (x ∷ xs) i (suc j) l s g =
    let p : Precedes (mib_leaf_oid x) (mib_leaf_oid l) =
      All-get_elem? (λ m. Precedes (mib_leaf_oid x) (mib_leaf_oid m)) xs j l s.0 g in
    rw (is_gt_lt (mib_leaf_oid x) (mib_leaf_oid l) p)
      (find_next_at xs (i + 1) j l s.1 g ∙ ground arith)

-- On a sorted table `mib_next_leaf` of a leaf is `mib_get_next` of that leaf's own OID.
pub mib_next_leaf-mib_get_next :
    (m : Mib) (j : ℕ) (l : MibLeaf)
    → IsSorted m.leaves
    → get_elem? m.leaves j ≡ some l
    → mib_next_leaf m j ≡ mib_get_next m (mib_leaf_oid l)
unfolding mib_next_leaf mib_get_next
mib_next_leaf-mib_get_next m j l s g = sym (find_next_at m.leaves 0 j l s g ∙ ground arith)
