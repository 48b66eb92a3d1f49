-- ===== src/Snmp/Mib/Values.antt =====
-- The values that `mib_put_value` writes.
use microcontroller_devices.Prelude.{ℕ, ◌-◌, ◌^◌, ◌<◌}
use microcontroller_devices.Prelude.{ltb, ◌==◌, if◌then◌else◌}
use microcontroller_devices.Prelude.{◌≡◌, arith}
use microcontroller_devices.Prelude.{Bool, true, false}
use microcontroller_devices.Prelude.{List, [], ◌∷◌}
use microcontroller_devices.Device.SimSwitch.{
  SimIfStatus, up, down, status_value, in_octets, in_ucast_pkts, out_octets, out_ucast_pkts,
  sim_switch_if_count, sim_switch_if_descr, sim_switch_if_type, sim_switch_if_mtu,
  sim_switch_if_speed, sim_switch_if_admin_status, sim_switch_if_oper_status, sim_switch_if_counter,
}
use microcontroller_devices.Device.SimSwitch.Invariant.{IsValid, sim_switch_if_counter-lt}
use microcontroller_devices.Snmp.Ber.Encoder.{
  BerEnc, put_bytes, tag_integer, tag_octet_str, tag_oid, tag_null, tag_counter32, tag_gauge32,
  tag_timeticks, ber_put_oid, ber_put_octet_str, ber_put_int, ber_put_uint_tagged, ber_put_null,
}
use microcontroller_devices.Snmp.Ber.Encoder.Form.{ber_put_octet_str-eq, ber_put_null-eq}
use microcontroller_devices.Snmp.Ber.Encoder.Writers.{
  ber_put_int-eq, ber_put_uint_tagged-eq, ber_put_oid-eq,
}
use microcontroller_devices.Snmp.Ber.Spec.{tlv, int_form, uint_form, oid_form}
use microcontroller_devices.Snmp.Mib.{
  Mib, MibLeaf, MibSource, mib_put_value, mib_sys_uptime, sys_object_id, sys_descr,
}

-- The SNMP values.
pub data MibValue : Type 0 where
  octets : List ℕ → MibValue
  integer : ℕ → MibValue
  unsigned : ℕ → ℕ → MibValue
  object : List ℕ → MibValue
  nothing : MibValue

unfoldable pub value_form : MibValue → List ℕ
value_form (octets s) = tlv tag_octet_str s
value_form (integer n) = tlv tag_integer (int_form n)
value_form (unsigned tag n) = tlv tag (uint_form n)
value_form (object oid) = tlv tag_oid (oid_form oid)
value_form nothing = tag_null ∷ 0 ∷ []

-- The object that each kind of leaf stands for.
unfoldable pub leaf_value : Mib → MibSource → MibLeaf → MibValue
leaf_value m v leaf =
    let k = leaf.kind in
    let idx = if ltb 0 leaf.row then leaf.row - 1 else 0 in
    if k == 0
    then octets (sys_descr v)
    else (if k == 1
        then object sys_object_id
        else (if k == 2
            then unsigned tag_timeticks (mib_sys_uptime m v.now_ms)
            else (if k == 3
                then octets v.sys_contact
                else (if k == 4
                    then octets v.hostname
                    else (if k == 5
                        then octets v.sys_location
                        else (if k == 6
                            then integer 6
                            else (if k == 7
                                then integer (sim_switch_if_count v.switch)
                                else (if k == 8
                                    then integer leaf.row
                                    else (if k == 9
                                        then octets (sim_switch_if_descr v.switch idx)
                                        else (if k == 10
                                            then integer (sim_switch_if_type v.switch idx)
                                            else (if k == 11
                                                then integer (sim_switch_if_mtu v.switch idx)
                                                else (if k == 12
                                                    then unsigned tag_gauge32
                                                        (sim_switch_if_speed v.switch idx)
                                                    else (if k == 13
                                                        then integer (
                                                            status_value (
                                                            sim_switch_if_admin_status v.switch
                                                            idx))
                                                        else (if k == 14
                                                            then integer (
                                                            status_value (
                                                            sim_switch_if_oper_status v.switch idx))
                                                            else (if k == 15
                                                            then unsigned tag_counter32 (
                                                            sim_switch_if_counter v.switch idx
                                                            in_octets)
                                                            else (if k == 16
                                                            then unsigned tag_counter32 (
                                                            sim_switch_if_counter v.switch idx
                                                            in_ucast_pkts)
                                                            else (if k == 17
                                                            then unsigned tag_counter32 (
                                                            sim_switch_if_counter v.switch idx
                                                            out_octets)
                                                            else (if k == 18
                                                            then unsigned tag_counter32 (
                                                            sim_switch_if_counter v.switch idx
                                                            out_ucast_pkts)
                                                            else (if k == 19
                                                            then octets v.firmware_name
                                                            else (if k == 20
                                                            then octets v.firmware_version
                                                            else (if k == 21
                                                            then octets v.build_timestamp
                                                            else nothing)))))))))))))))))))))

-- A test that chooses the writer chooses the value.
choose :
    (b : Bool) (e x y : BerEnc) (v w : MibValue)
    → x ≡ put_bytes e (value_form v)
    → y ≡ put_bytes e (value_form w)
    → (if b then x else y) ≡ put_bytes e (value_form (if b then v else w))
choose true e x y v w p q = p
choose false e x y v w p q = q

module _ (e : BerEnc) where
  put_octets : (s : List ℕ) → ber_put_octet_str e s ≡ put_bytes e (value_form (octets s))
  unfolding value_form
  put_octets s = ber_put_octet_str-eq e s

  put_integer : (n : ℕ) → n < 2 ^ 32 → ber_put_int e n ≡ put_bytes e (value_form (integer n))
  unfolding value_form
  put_integer n h = ber_put_int-eq e n h

  put_unsigned :
      (n tag : ℕ)
      → n < 2 ^ 32
      → ber_put_uint_tagged e n tag ≡ put_bytes e (value_form (unsigned tag n))
  unfolding value_form
  put_unsigned n tag h = ber_put_uint_tagged-eq e n tag h

  put_object : (oid : List ℕ) → ber_put_oid e oid ≡ put_bytes e (value_form (object oid))
  unfolding value_form
  put_object oid = ber_put_oid-eq e oid

  put_nothing : ber_put_null e ≡ put_bytes e (value_form nothing)
  unfolding value_form
  put_nothing = ber_put_null-eq e

status_value_lt : (s : SimIfStatus) → status_value s < 2 ^ 32
unfolding status_value
status_value_lt up = omega arith
status_value_lt down = omega arith

-- `mib_put_value` writes the leaf's value, as the table of kinds gives it, as one element, for a
-- leaf of any kind whose row is below 2^32, on a valid simulation.
pub mib_put_value-eq :
    (m : Mib) (v : MibSource) (e : BerEnc) (leaf : MibLeaf)
    → IsValid v.switch
    → leaf.row < 2 ^ 32
    → mib_put_value m v e leaf ≡ put_bytes e (value_form (leaf_value m v leaf))
unfolding mib_put_value leaf_value
mib_put_value-eq m v e leaf s r =
    let idx : ℕ = if ltb 0 leaf.row then leaf.row - 1 else 0 in
    choose (leaf.kind == 0) e _ _ _ _ (put_octets e _) (
      choose (leaf.kind == 1) e _ _ _ _ (put_object e _) (
        choose (leaf.kind == 2) e _ _ _ _
          (put_unsigned e (mib_sys_uptime m v.now_ms) _ (unfold mib_sys_uptime in omega arith))
          (choose (leaf.kind == 3) e _ _ _ _ (put_octets e _) (
            choose (leaf.kind == 4) e _ _ _ _ (put_octets e _) (
              choose (leaf.kind == 5) e _ _ _ _ (put_octets e _) (
                choose (leaf.kind == 6) e _ _ _ _ (put_integer e 6 (omega arith)) (
                  choose (leaf.kind == 7) e _ _ _ _
                    (put_integer e (sim_switch_if_count v.switch)
                      (unfold sim_switch_if_count in omega (arith, s.count_le)))
                    (choose (leaf.kind == 8) e _ _ _ _ (put_integer e _ r) (
                      choose (leaf.kind == 9) e _ _ _ _ (put_octets e _) (
                        choose (leaf.kind == 10) e _ _ _ _
                          (put_integer e (sim_switch_if_type v.switch idx)
                            (unfold sim_switch_if_type in ground arith))
                          (choose (leaf.kind == 11) e _ _ _ _
                            (put_integer e (sim_switch_if_mtu v.switch idx)
                              (unfold sim_switch_if_mtu in ground arith))
                            (choose (leaf.kind == 12) e _ _ _ _
                              (put_unsigned e (sim_switch_if_speed v.switch idx) _
                                (unfold sim_switch_if_speed in ground arith))
                              (choose (leaf.kind == 13) e _ _ _ _
                                (put_integer e _ (status_value_lt _))
                                (choose (leaf.kind == 14) e _ _ _ _
                                  (put_integer e _ (status_value_lt _))
                                  (choose (leaf.kind == 15) e _ _ _ _
                                    (put_unsigned e _ _ (sim_switch_if_counter-lt _ _ _ s))
                                    (choose (leaf.kind == 16) e _ _ _ _
                                      (put_unsigned e _ _ (sim_switch_if_counter-lt _ _ _ s))
                                      (choose (leaf.kind == 17) e _ _ _ _
                                        (put_unsigned e _ _ (sim_switch_if_counter-lt _ _ _ s))
                                        (choose (leaf.kind == 18) e _ _ _ _
                                          (put_unsigned e _ _ (sim_switch_if_counter-lt _ _ _ s))
                                          (choose (leaf.kind == 19) e _ _ _ _ (put_octets e _) (
                                            choose (leaf.kind == 20) e _ _ _ _ (put_octets e _) (
                                              choose (leaf.kind == 21) e _ _ _ _ (put_octets e _)
                                                (put_nothing e))))))))))))))))))))))
