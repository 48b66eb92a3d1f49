-- ===== src/Tests/Snmp.antt =====
-- The SNMP agent on a switch of two interfaces.
use microcontroller_devices.Prelude.{ℕ, ◌≤◌, ◌<◌}
use microcontroller_devices.Prelude.{◌≡◌, refl, arith, ◌↔◌}
use microcontroller_devices.Prelude.{false}
use microcontroller_devices.Prelude.{none, some, List, [], ◌∷◌}
use microcontroller_devices.Prelude.{length, drop}
use microcontroller_devices.Prelude.{get_elem?}
use microcontroller_devices.Prelude.Text.{codes}
use microcontroller_devices.Device.SimSwitch.{
  SwitchConfig, SimSwitch, data_source_init, sim_switch_if_count, init_ifs, clamp_count,
}
use microcontroller_devices.Device.SimSwitch.Invariant.{data_source_init-IsValid}
use microcontroller_devices.Snmp.Mib.{
  Mib, MibLeaf, MibSource, mib_init, mib_table, mib_get_exact, mib_get_next, mib_leaf_oid,
  mib_leaf_count, add_leaf, add_scalars, add_rows, add_columns, find_exact, find_next,
}
use microcontroller_devices.Snmp.Ber.Decoder.{
  oid_cmp, be_value, get_value, ber_get_tlv, ber_enter, int_value, int_content, ber_get_int,
  ber_get_octet, get_subids, oid_content, ber_get_oid,
}
use microcontroller_devices.Snmp.Ber.Encoder.{BerEnc, put_bytes, ber_enc_init}
use microcontroller_devices.Snmp.Mib.Table.{IsSorted, mib_init-IsSorted}
use microcontroller_devices.Snmp.Mib.Search.{From, mib_get_exact_iff}
use microcontroller_devices.Snmp.Mib.Walk.{mib_get_next_least}
use microcontroller_devices.Snmp.Mib.Rows.{mib_init_rows}
use microcontroller_devices.Snmp.Agent.{
  AgentConfig, ParsedReq, RespVb, parse_request, parse_varbinds, same_bytes, encode_response,
}
use microcontroller_devices.Snmp.Agent.Fuel.{parse_varbinds_enough}
use microcontroller_devices.Snmp.Agent.Bulk.{plan_getbulk, length-plan_getbulk_le}
use microcontroller_devices.Snmp.Agent.Spec.{response_form}
use microcontroller_devices.Snmp.Agent.Encode.{IsReady, encode_response-eq}
use microcontroller_devices.Snmp.Agent.Handler.{handle_request}
use microcontroller_devices.Snmp.Agent.Answer.{answer}
use microcontroller_devices.Snmp.Agent.Parse.{IsAccepted, parse_request-IsAccepted}
use microcontroller_devices.Snmp.Agent.Refine.{
  Sends, handle_request-Sends, handle_request_drops_iff,
}

abbrev two_ports : SwitchConfig
two_ports = record { if_count = 2; flap_period_steps = 3 }

abbrev switch : SimSwitch
switch = data_source_init two_ports

abbrev mib : Mib
mib = mib_init two_ports switch 1000

abbrev source : MibSource
source = record {
  firmware_name = codes "snmp";
  firmware_version = codes "1.2.3";
  build_timestamp = codes "today";
  sys_contact = codes "ops";
  hostname = codes "switch";
  sys_location = codes "lab";
  switch = switch;
  now_ms = 61000;
}

mib-IsReady : IsReady mib source
mib-IsReady = record {
  switch = data_source_init-IsValid two_ports;
  rows = mib_init_rows two_ports switch 1000;
}

mib-IsSorted : IsSorted mib.leaves
mib-IsSorted = (mib_init-IsSorted two_ports 1000 (omega arith) (omega arith)).0

abbrev agent : AgentConfig
agent = record { read_community = codes "public"; max_req_vb = 32 }

-- GET of sysUpTime.0, request-id 7.
abbrev get_uptime : List ℕ
get_uptime =
    0x30 ∷ 0x26 ∷ 0x02 ∷ 0x01 ∷ 0x01 ∷ 0x04 ∷ 0x06 ∷ 0x70 ∷ 0x75 ∷ 0x62 ∷ 0x6C ∷ 0x69 ∷ 0x63 ∷ 0xA0
    ∷ 0x19 ∷ 0x02 ∷ 0x01 ∷ 0x07 ∷ 0x02 ∷ 0x01 ∷ 0x00 ∷ 0x02 ∷ 0x01 ∷ 0x00 ∷ 0x30 ∷ 0x0E ∷ 0x30
    ∷ 0x0C ∷ 0x06 ∷ 0x08 ∷ 0x2B ∷ 0x06 ∷ 0x01 ∷ 0x02 ∷ 0x01 ∷ 0x01 ∷ 0x03 ∷ 0x00 ∷ 0x05 ∷ 0x00 ∷ []

abbrev uptime_oid : List ℕ
uptime_oid = 1 ∷ 3 ∷ 6 ∷ 1 ∷ 2 ∷ 1 ∷ 1 ∷ 3 ∷ 0 ∷ []

abbrev uptime_request : ParsedReq
uptime_request = record {
  pdu_type = 0xA0;
  request_id = 7;
  field2 = 0;
  field3 = 0;
  names = uptime_oid ∷ [];
  too_many = false;
  community = codes "public";
}

abbrev memory : ℕ → ℕ
memory j = 0

get_uptime_parses : parse_request agent get_uptime ≡ some uptime_request
unfolding parse_request parse_varbinds same_bytes be_value get_value ber_get_tlv ber_enter int_value
    int_content ber_get_int ber_get_octet get_subids oid_content ber_get_oid
get_uptime_parses = refl

handle_request-Sends_example :
    Sends
      (handle_request agent mib source memory get_uptime)
      (answer agent mib source uptime_request)
handle_request-Sends_example =
    handle_request-Sends agent mib source memory get_uptime uptime_request mib-IsReady (omega arith)
      get_uptime_parses

handle_request_drops_iff_example :
    ((handle_request agent mib source memory get_uptime).1 ≡ 0)
    ↔ (parse_request agent get_uptime ≡ none)
handle_request_drops_iff_example =
    handle_request_drops_iff agent mib source memory get_uptime mib-IsReady (omega arith)

parse_request-IsAccepted_example : IsAccepted agent uptime_request
parse_request-IsAccepted_example =
    parse_request-IsAccepted agent get_uptime uptime_request get_uptime_parses

mib_init-IsSorted_example : IsSorted mib.leaves × (mib_leaf_count mib ≡ 33)
mib_init-IsSorted_example = mib_init-IsSorted two_ports 1000 (omega arith) (omega arith)

-- The leaf of sysUpTime is the third of the table.
uptime_at : mib_get_exact mib uptime_oid ≡ some 2
unfolding mib_get_exact find_exact mib_init mib_table add_leaf add_scalars add_rows add_columns
    mib_leaf_oid oid_cmp sim_switch_if_count data_source_init init_ifs clamp_count
uptime_at = refl

after_uptime : mib_get_next mib uptime_oid ≡ some 3
unfolding mib_get_next find_next mib_init mib_table add_leaf add_scalars add_rows add_columns
    mib_leaf_oid oid_cmp sim_switch_if_count data_source_init init_ifs clamp_count
after_uptime = refl

past_the_end : mib_get_next mib (2 ∷ []) ≡ none
unfolding mib_get_next find_next mib_init mib_table add_leaf add_scalars add_rows add_columns
    mib_leaf_oid oid_cmp sim_switch_if_count data_source_init init_ifs clamp_count
past_the_end = refl

abbrev uptime_leaf : MibLeaf
uptime_leaf = record { kind = 2; col = 3; row = 0 }

uptime_leaf_at : get_elem? mib.leaves 2 ≡ some uptime_leaf
unfolding mib_init mib_table add_leaf add_scalars add_rows add_columns mib_leaf_oid oid_cmp
    sim_switch_if_count data_source_init init_ifs clamp_count
uptime_leaf_at = refl

mib_get_exact_iff_example :
    (mib_get_exact mib uptime_oid ≡ some 2)
    ↔ ((l : MibLeaf) × (get_elem? mib.leaves 2 ≡ some l) × (mib_leaf_oid l ≡ uptime_oid))
mib_get_exact_iff_example = mib_get_exact_iff mib uptime_oid 2 mib-IsSorted

mib_get_next_least_example : (3 < length mib.leaves) × From mib.leaves uptime_oid 3
mib_get_next_least_example = mib_get_next_least mib uptime_oid 3 mib-IsSorted after_uptime

abbrev buffer : BerEnc
buffer = ber_enc_init memory 1500

abbrev uptime_vb : RespVb
uptime_vb = record { leaf = some 2; name = uptime_oid; exception = 0 }

encode_response-eq_example :
    encode_response mib source buffer 7 0 0 agent.read_community (uptime_vb ∷ [])
    ≡ put_bytes buffer (response_form mib source 7 0 0 agent.read_community (uptime_vb ∷ []))
encode_response-eq_example =
    encode_response-eq mib source buffer 7 0 0 agent.read_community (uptime_vb ∷ []) mib-IsReady
      (omega arith) (omega arith) (omega arith)

length-plan_getbulk_le_example :
    length (plan_getbulk agent mib (record uptime_request { field3 = 5 })) ≤ 48
length-plan_getbulk_le_example =
    length-plan_getbulk_le agent mib (record uptime_request { field3 = 5 })

-- The varbind list of the request above.
abbrev uptime_list : List ℕ
uptime_list = drop 26 get_uptime

parse_varbinds_enough_example :
    parse_varbinds 14 32 0 uptime_list ≡ parse_varbinds 100 32 0 uptime_list
parse_varbinds_enough_example =
    parse_varbinds_enough 14 100 32 0 uptime_list (omega arith) (omega arith)
