-- ===== src/Snmp/Mib/Table.antt =====
-- The order of the leaf table that `mib_init` builds.
use microcontroller_devices.Prelude.{ℕ, zero, suc, ◌+◌, ◌*◌, ◌≤◌, ◌<◌}
use microcontroller_devices.Prelude.{◌≡◌, refl, arith}
use microcontroller_devices.Prelude.{Bool, true, false, ◌&&◌}
use microcontroller_devices.Prelude.{List, [], ◌∷◌}
use microcontroller_devices.Prelude.{length, All}
use Prim.Native.Nat.{Ordering, min}
use microcontroller_devices.Device.SimSwitch.{
  SwitchConfig, clamp_count, data_source_init, sim_switch_if_count,
}
use microcontroller_devices.Device.SimSwitch.Flap.{length-data_source_init}
use microcontroller_devices.Snmp.Ber.Decoder.{oid_cmp}
use microcontroller_devices.Snmp.Ber.Decoder.Order.{oid_cmp_trans}
use microcontroller_devices.Snmp.Mib.{
  mib_leaf_count, MibLeaf, mib_leaf_oid, mib_table, add_leaf, add_scalars, add_rows, add_columns,
  mib_init, if_columns, num_scalars, num_fw_scalars,
}

abbrev pub Precedes : List ℕ → List ℕ → Type 0
Precedes a b = oid_cmp a b ≡ Ordering.lt

-- Every leaf stands before all that follow it.
abbrev pub IsSorted : List MibLeaf → Type 0
IsSorted [] = Unit
IsSorted (l ∷ ls) = All (λ m. Precedes (mib_leaf_oid l) (mib_leaf_oid m)) ls × IsSorted ls

is_lt : Ordering → Bool
is_lt Ordering.lt = true
is_lt Ordering.eq = false
is_lt Ordering.gt = false

-- The test on neighbours.
sorted_next : MibLeaf → List MibLeaf → Bool
sorted_next l [] = true
sorted_next l (m ∷ ms) = is_lt (oid_cmp (mib_leaf_oid l) (mib_leaf_oid m)) && sorted_next m ms

sorted_test : List MibLeaf → Bool
sorted_test [] = true
sorted_test (l ∷ ls) = sorted_next l ls

before-All :
    (a : List ℕ) (l : MibLeaf) (ls : List MibLeaf)
    → Precedes a (mib_leaf_oid l)
    → sorted_next l ls ≡ true
    → All (λ m. Precedes a (mib_leaf_oid m)) ls
unfolding sorted_next is_lt
before-All a l [] p h = tt
before-All a l (m ∷ ms) p h =
    let q : Precedes (mib_leaf_oid l) (mib_leaf_oid m) = ground arith in
    let r : Precedes a (mib_leaf_oid m) = oid_cmp_trans a (mib_leaf_oid l) (mib_leaf_oid m) p q in
    (r, before-All a m ms r (ground arith))

sorted_next_sound : (l : MibLeaf) (ls : List MibLeaf) → sorted_next l ls ≡ true → IsSorted (l ∷ ls)
unfolding sorted_next is_lt
sorted_next_sound l [] h = (tt, tt)
sorted_next_sound l (m ∷ ms) h =
    let q : Precedes (mib_leaf_oid l) (mib_leaf_oid m) = ground arith in
    let rest : sorted_next m ms ≡ true = ground arith in
    ((q, before-All (mib_leaf_oid l) m ms q rest), sorted_next_sound m ms rest)

sorted_test_sound : (ls : List MibLeaf) → sorted_test ls ≡ true → IsSorted ls
unfolding sorted_test
sorted_test_sound [] h = tt
sorted_test_sound (l ∷ ls) h = sorted_next_sound l ls h

-- The table for `n` interfaces, in a build that is sized for them.
abbrev full_table : ℕ → List MibLeaf
full_table n = mib_table (num_scalars + length if_columns * n + num_fw_scalars) n

table_evaluated :
    (n : ℕ) → n < 9 → (sorted_test (full_table n) ≡ true) × (length (full_table n) ≡ 11 + 11 * n)
unfolding sorted_test sorted_next is_lt mib_table add_leaf add_scalars add_rows add_columns
    mib_leaf_oid oid_cmp
table_evaluated zero h = (refl, refl)
table_evaluated (suc zero) h = (refl, refl)
table_evaluated (suc (suc zero)) h = (refl, refl)
table_evaluated (suc (suc (suc zero))) h = (refl, refl)
table_evaluated (suc (suc (suc (suc zero)))) h = (refl, refl)
table_evaluated (suc (suc (suc (suc (suc zero))))) h = (refl, refl)
table_evaluated (suc (suc (suc (suc (suc (suc zero)))))) h = (refl, refl)
table_evaluated (suc (suc (suc (suc (suc (suc (suc zero))))))) h = (refl, refl)
table_evaluated (suc (suc (suc (suc (suc (suc (suc (suc zero)))))))) h = (refl, refl)
table_evaluated (suc (suc (suc (suc (suc (suc (suc (suc (suc n))))))))) h = absurd (omega arith)

-- At every interface count from 1 to 8, `mib_init` after `data_source_init` leaves a table that
-- is strictly sorted by OID, with 11 leaves and 11 more for each interface.
pub mib_init-IsSorted :
    (c : SwitchConfig) (now : ℕ)
    → 1 ≤ c.if_count
    → c.if_count ≤ 8
    → IsSorted (mib_init c (data_source_init c) now).leaves
      × (mib_leaf_count (mib_init c (data_source_init c) now) ≡ 11 + 11 * c.if_count)
unfolding mib_init mib_leaf_count sim_switch_if_count
mib_init-IsSorted c now lo hi =
    rw (length-data_source_init c, count, rows)
      (sorted_test_sound (full_table c.if_count) evaluated.0, evaluated.1)
  where
    count : clamp_count c ≡ c.if_count
    count = unfold clamp_count in ground arith

    rows : min c.if_count 8 ≡ c.if_count
    rows = omega arith

    evaluated :
        (sorted_test (full_table c.if_count) ≡ true)
        × (length (full_table c.if_count) ≡ 11 + 11 * c.if_count)
    evaluated = table_evaluated c.if_count (omega arith)
