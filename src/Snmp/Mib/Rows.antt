-- ===== src/Snmp/Mib/Rows.antt =====
-- About the `row` field of the leaves that `mib_init` builds.
use microcontroller_devices.Prelude.{ℕ, zero, suc, ◌+◌, ◌-◌, ◌%◌, ◌<◌}
use microcontroller_devices.Prelude.{leb}
use microcontroller_devices.Prelude.{arith, inl, inr}
use microcontroller_devices.Prelude.{Bool-cases}
use microcontroller_devices.Prelude.{List, [], ◌∷◌}
use microcontroller_devices.Prelude.{length, All, All-append}
use microcontroller_devices.Device.SimSwitch.{SwitchConfig, SimSwitch}
use microcontroller_devices.Snmp.Mib.{
  MibLeaf, mib_table, mib_init, add_leaf, add_scalars, add_rows, add_columns, if_columns,
}

abbrev pub IsRow : MibLeaf → Type 0
IsRow l = l.row < 256

add_leaf-IsRow :
    (cap : ℕ) (ls : List MibLeaf) (kind col row : ℕ)
    → All IsRow ls
    → row < 256
    → All IsRow (add_leaf cap ls kind col row)
unfolding add_leaf
add_leaf-IsRow cap ls kind col row h r = elim (Bool-cases (leb cap (length ls))) [
  | inl full ↦ rw full h
  | inr room ↦
      rw room (All-append IsRow ls (record { kind = kind; col = col; row = row } ∷ []) h (r, tt))
]

add_scalars-IsRow :
    (cap base n k : ℕ) (ls : List MibLeaf) → All IsRow ls → All IsRow (add_scalars cap base n k ls)
unfolding add_scalars
add_scalars-IsRow cap base n zero ls h = h
add_scalars-IsRow cap base n (suc k) ls h =
    add_scalars-IsRow cap base (n + 1) k _
      (add_leaf-IsRow cap ls (base + (n - 1)) n 0 h (omega arith))

add_rows-IsRow :
    (cap : ℕ) (column : ℕ × ℕ) (r k : ℕ) (ls : List MibLeaf)
    → All IsRow ls
    → All IsRow (add_rows cap column r k ls)
unfolding add_rows
add_rows-IsRow cap column r zero ls h = h
add_rows-IsRow cap column r (suc k) ls h =
    add_rows-IsRow cap column (r + 1) k _
      (add_leaf-IsRow cap ls column.0 column.1 (r % 256) h (omega arith))

add_columns-IsRow :
    (cap nif : ℕ) (columns : List (ℕ × ℕ)) (ls : List MibLeaf)
    → All IsRow ls
    → All IsRow (add_columns cap nif columns ls)
unfolding add_columns
add_columns-IsRow cap nif [] ls h = h
add_columns-IsRow cap nif (column ∷ columns) ls h =
    add_columns-IsRow cap nif columns _ (add_rows-IsRow cap column 1 nif ls h)

pub mib_init_rows :
    (c : SwitchConfig) (s : SimSwitch) (now : ℕ) → All IsRow (mib_init c s now).leaves
unfolding mib_init mib_table
mib_init_rows c s now = add_scalars-IsRow _ _ _ _ _ (
    add_columns-IsRow _ _ if_columns _
      (add_leaf-IsRow _ _ _ _ _ (add_scalars-IsRow _ _ _ _ _ tt) (omega arith)))
