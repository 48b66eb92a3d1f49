-- ===== src/Snmp/Mib.antt =====
-- lib/snmp/snmp_mib.c and snmp_mib.h: the MIB view of the switch simulation.
-- A pointer into `leaves` is the index of the leaf; `NULL` is `none`.
pub mod Table
pub mod Rows
pub mod Search
pub mod Walk
pub mod Values
use microcontroller_devices.Prelude.{ℕ, zero, suc, ◌+◌, ◌-◌, ◌*◌, ◌/◌, ◌%◌, ◌^◌}
use microcontroller_devices.Prelude.{ltb, leb, ◌==◌, if◌then◌else◌}
use microcontroller_devices.Prelude.{Bool, true, false}
use microcontroller_devices.Prelude.{Option, none, some, List, [], ◌∷◌, ◌++◌}
use microcontroller_devices.Prelude.{length, take}
use microcontroller_devices.Prelude.Text.{codes}
use Prim.Native.Nat.{Ordering, min}
use microcontroller_devices.Device.SimSwitch.{
  SimSwitch, SwitchConfig, status_value, sim_switch_max_if, in_octets, in_ucast_pkts, out_octets,
  out_ucast_pkts, sim_switch_if_count, sim_switch_if_descr, sim_switch_if_type, sim_switch_if_mtu,
  sim_switch_if_speed, sim_switch_if_admin_status, sim_switch_if_oper_status, sim_switch_if_counter,
}
use microcontroller_devices.Snmp.Ber.Encoder.{
  BerEnc, ber_put_oid, ber_put_int, ber_put_uint_tagged, ber_put_octet_str, ber_put_null,
  tag_counter32, tag_gauge32, tag_timeticks,
}
use microcontroller_devices.Snmp.Ber.Decoder.{oid_cmp}

-- The value selectors: scalars, then ifTable columns, then the firmware scalars.
abbrev pub k_sys_descr : ℕ
k_sys_descr = 0

abbrev pub k_if_number : ℕ
k_if_number = 7

abbrev pub k_if_index : ℕ
k_if_index = 8

abbrev pub k_fw_name : ℕ
k_fw_name = 19

-- `struct mib_leaf`.
pub record MibLeaf : Type 0 where
  pub kind : ℕ
  pub col : ℕ
  pub row : ℕ

-- `if_columns[]`: kind and column number.
abbrev pub if_columns : List (ℕ × ℕ)
if_columns =
    (8, 1)
    ∷ (9, 2)
    ∷ (10, 3)
    ∷ (11, 4)
    ∷ (12, 5)
    ∷ (13, 7)
    ∷ (14, 8)
    ∷ (15, 10)
    ∷ (16, 11)
    ∷ (17, 16)
    ∷ (18, 17)
    ∷ []

abbrev pub num_scalars : ℕ
num_scalars = 8

abbrev pub num_fw_scalars : ℕ
num_fw_scalars = 3

-- `MIB_MAX_LEAVES`, from the configured interface count.
abbrev pub mib_max_leaves : SwitchConfig → ℕ
mib_max_leaves c =
    num_scalars + length if_columns * min c.if_count sim_switch_max_if + num_fw_scalars

abbrev pub sys_prefix : List ℕ
sys_prefix = 1 ∷ 3 ∷ 6 ∷ 1 ∷ 2 ∷ 1 ∷ 1 ∷ []

abbrev pub ifnum_oid : List ℕ
ifnum_oid = 1 ∷ 3 ∷ 6 ∷ 1 ∷ 2 ∷ 1 ∷ 2 ∷ 1 ∷ 0 ∷ []

abbrev pub ifentry_prefix : List ℕ
ifentry_prefix = 1 ∷ 3 ∷ 6 ∷ 1 ∷ 2 ∷ 1 ∷ 2 ∷ 2 ∷ 1 ∷ []

abbrev pub sys_object_id : List ℕ
sys_object_id = 1 ∷ 3 ∷ 6 ∷ 1 ∷ 4 ∷ 1 ∷ 99999 ∷ 1 ∷ []

-- The table is full at `cap` leaves.
unfoldable pub add_leaf : ℕ → List MibLeaf → ℕ → ℕ → ℕ → List MibLeaf
add_leaf cap leaves kind col row =
    if leb cap (length leaves)
    then leaves
    else leaves ++ (record { kind = kind; col = col; row = row } ∷ [])

unfoldable pub mib_leaf_oid : MibLeaf → List ℕ
mib_leaf_oid leaf =
    if leaf.kind == k_if_number
    then ifnum_oid
    else (if leb k_fw_name leaf.kind
        then sys_object_id ++ (leaf.col ∷ 0 ∷ [])
        else (if leb k_if_index leaf.kind
            then ifentry_prefix ++ (leaf.col ∷ leaf.row ∷ [])
            else sys_prefix ++ (leaf.col ∷ 0 ∷ [])))

-- The scalar loops of `mib_init`, from `n` on with `k` rounds left; the kinds count up from `base`.
unfoldable pub add_scalars : ℕ → ℕ → ℕ → ℕ → List MibLeaf → List MibLeaf
add_scalars cap base n zero leaves = leaves
add_scalars cap base n (suc k) leaves =
    add_scalars cap base (n + 1) k (add_leaf cap leaves (base + (n - 1)) n 0)

-- The loop over the rows of one column.
unfoldable pub add_rows : ℕ → ℕ × ℕ → ℕ → ℕ → List MibLeaf → List MibLeaf
add_rows cap column r zero leaves = leaves
add_rows cap column r (suc k) leaves =
    add_rows cap column (r + 1) k (add_leaf cap leaves column.0 column.1 (r % 256))

unfoldable pub add_columns : ℕ → ℕ → List (ℕ × ℕ) → List MibLeaf → List MibLeaf
add_columns cap nif [] leaves = leaves
add_columns cap nif (column ∷ columns) leaves =
    add_columns cap nif columns (add_rows cap column 1 nif leaves)

-- The module's static state. `uptime_start_ms` is what `k_uptime_get` returned.
pub record Mib : Type 0 where
  pub leaves : List MibLeaf
  pub uptime_start_ms : ℕ

-- The table that `mib_init` builds for `nif` simulated interfaces.
unfoldable pub mib_table : ℕ → ℕ → List MibLeaf
mib_table cap nif =
    let scalars = add_scalars cap k_sys_descr 1 (num_scalars - 1) [] in
    let numbered = add_leaf cap scalars k_if_number 0 0 in
    add_scalars cap k_fw_name 1 num_fw_scalars (add_columns cap nif if_columns numbered)

unfoldable pub mib_init : SwitchConfig → SimSwitch → ℕ → Mib
mib_init c s now = record {
  leaves = mib_table (mib_max_leaves c) (sim_switch_if_count s);
  uptime_start_ms = now;
}

pub mib_leaf_count : Mib → ℕ
mib_leaf_count m = length m.leaves

-- Hundredths of a second since `mib_init`; a negative difference counts as 0.
pub mib_sys_uptime : Mib → ℕ → ℕ
mib_sys_uptime m now = (now - m.uptime_start_ms) / 10 % 2 ^ 32

abbrev pub leaf_cmp : MibLeaf → List ℕ → Ordering
leaf_cmp leaf oid = oid_cmp (mib_leaf_oid leaf) oid

abbrev pub is_eq : Ordering → Bool
is_eq Ordering.eq = true
is_eq Ordering.lt = false
is_eq Ordering.gt = false

abbrev pub is_gt : Ordering → Bool
is_gt Ordering.gt = true
is_gt Ordering.lt = false
is_gt Ordering.eq = false

-- The search loops, from index `i` on.
unfoldable pub find_exact : List MibLeaf → ℕ → List ℕ → Option ℕ
find_exact [] i oid = none
find_exact (l ∷ ls) i oid =
    let rest = find_exact ls (i + 1) oid in if is_eq (leaf_cmp l oid) then some i else rest

unfoldable pub find_next : List MibLeaf → ℕ → List ℕ → Option ℕ
find_next [] i oid = none
find_next (l ∷ ls) i oid =
    let rest = find_next ls (i + 1) oid in if is_gt (leaf_cmp l oid) then some i else rest

unfoldable pub mib_get_exact : Mib → List ℕ → Option ℕ
mib_get_exact m oid = find_exact m.leaves 0 oid

unfoldable pub mib_get_next : Mib → List ℕ → Option ℕ
mib_get_next m oid = find_next m.leaves 0 oid

pub mib_next_leaf : Mib → ℕ → Option ℕ
mib_next_leaf m i = if leb (length m.leaves) (i + 1) then none else some (i + 1)

unfoldable pub mib_put_oid : BerEnc → MibLeaf → BerEnc
mib_put_oid e leaf = ber_put_oid e (mib_leaf_oid leaf)

-- What `mib_put_value` reads from the rest of the firmware: the identity strings, the configured
-- texts, the host name, the simulation, and the time since boot.
pub record MibSource : Type 0 where
  pub firmware_name : List ℕ
  pub firmware_version : List ℕ
  pub build_timestamp : List ℕ
  pub sys_contact : List ℕ
  pub hostname : List ℕ
  pub sys_location : List ℕ
  pub switch : SimSwitch
  pub now_ms : ℕ

-- `snprintf(buf, 96, "%s %s (build %s)", ...)`.
pub sys_descr : MibSource → List ℕ
sys_descr v = take 95 (
    v.firmware_name
    ++ (codes " "
        ++ (v.firmware_version ++ (codes " (build " ++ (v.build_timestamp ++ codes ")")))))

pub mib_put_value : Mib → MibSource → BerEnc → MibLeaf → BerEnc
mib_put_value m v e leaf =
    let k = leaf.kind in
    let idx = if ltb 0 leaf.row then leaf.row - 1 else 0 in
    if k == 0
    then ber_put_octet_str e (sys_descr v)
    else (if k == 1
        then ber_put_oid e sys_object_id
        else (if k == 2
            then ber_put_uint_tagged e (mib_sys_uptime m v.now_ms) tag_timeticks
            else (if k == 3
                then ber_put_octet_str e v.sys_contact
                else (if k == 4
                    then ber_put_octet_str e v.hostname
                    else (if k == 5
                        then ber_put_octet_str e v.sys_location
                        else (if k == 6
                            then ber_put_int e 6
                            else (if k == 7
                                then ber_put_int e (sim_switch_if_count v.switch)
                                else (if k == 8
                                    then ber_put_int e leaf.row
                                    else (if k == 9
                                        then ber_put_octet_str e (sim_switch_if_descr v.switch idx)
                                        else (if k == 10
                                            then ber_put_int e (sim_switch_if_type v.switch idx)
                                            else (if k == 11
                                                then ber_put_int e (sim_switch_if_mtu v.switch idx)
                                                else (if k == 12
                                                    then ber_put_uint_tagged e
                                                        (sim_switch_if_speed v.switch idx)
                                                        tag_gauge32
                                                    else (if k == 13
                                                        then ber_put_int e (
                                                            status_value (
                                                            sim_switch_if_admin_status v.switch
                                                            idx))
                                                        else (if k == 14
                                                            then ber_put_int e (
                                                            status_value (
                                                            sim_switch_if_oper_status v.switch idx))
                                                            else (if k == 15
                                                            then ber_put_uint_tagged e
                                                            (sim_switch_if_counter v.switch idx
                                                            in_octets)
                                                            tag_counter32
                                                            else (if k == 16
                                                            then ber_put_uint_tagged e
                                                            (sim_switch_if_counter v.switch idx
                                                            in_ucast_pkts)
                                                            tag_counter32
                                                            else (if k == 17
                                                            then ber_put_uint_tagged e
                                                            (sim_switch_if_counter v.switch idx
                                                            out_octets)
                                                            tag_counter32
                                                            else (if k == 18
                                                            then ber_put_uint_tagged e
                                                            (sim_switch_if_counter v.switch idx
                                                            out_ucast_pkts)
                                                            tag_counter32
                                                            else (if k == 19
                                                            then ber_put_octet_str e v.firmware_name
                                                            else (if k == 20
                                                            then ber_put_octet_str e
                                                            v.firmware_version
                                                            else (if k == 21
                                                            then ber_put_octet_str e
                                                            v.build_timestamp
                                                            else ber_put_null e)))))))))))))))))))))
