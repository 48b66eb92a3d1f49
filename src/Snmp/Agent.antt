-- ===== src/Snmp/Agent.antt =====
-- lib/snmp/snmp_agent.c: parsing a request, planning the response, and encoding it.
pub mod Bulk
pub mod Fuel
pub mod Parse
pub mod Refine
pub mod Answer
pub mod Spec
pub mod Encode
pub mod Handler
use microcontroller_devices.Prelude.{ℕ, zero, suc, ◌+◌, ◌-◌, ◌*◌, ◌/◌, ◌%◌, ◌^◌, ◌≤◌, ◌<◌}
use microcontroller_devices.Prelude.{ltb, leb, ◌==◌, if◌then◌else◌, ltb→lt, lt→ltb, leb→le, ==_iff}
use microcontroller_devices.Prelude.{◌≡◌, ◌≢◌, refl, sym, ap, ap₂, ◌∙◌, arith, ◌⊎◌, inl, inr, ◌↔◌}
use microcontroller_devices.Prelude.{Bool, true, false, ◌&&◌, ◌||◌, not, Bool-cases, Option-cases}
use microcontroller_devices.Prelude.{
  Option, none, some, List, [], ◌∷◌, ◌++◌, append-nil, append_assoc,
}
use microcontroller_devices.Prelude.{reverse, length, length-append, take, drop, All, All-append}
use microcontroller_devices.Prelude.{get_elem?, get_or, set, length-set}
use mathlib.Core.List.{map}
use microcontroller_devices.Prelude.Chain.{◌>>=◌, ◌>>◌, guard}
use microcontroller_devices.Snmp.Ber.Encoder.{
  BerEnc, ber_enc_init, ber_enc_length, ber_mark, ber_wrap, ber_put_int, ber_put_octet_str,
  ber_put_oid, ber_put_null, ber_put_exception, tag_sequence,
}
use microcontroller_devices.Snmp.Ber.Decoder.{
  ber_get_tlv, ber_enter, ber_get_int, ber_get_octet, ber_get_oid,
}
use microcontroller_devices.Snmp.Mib.{
  Mib, MibLeaf, MibSource, mib_get_exact, mib_get_next, mib_next_leaf, mib_put_value, mib_put_oid,
}

abbrev pub snmp_pdu_get : ℕ
snmp_pdu_get = 0xA0

abbrev pub snmp_pdu_getnext : ℕ
snmp_pdu_getnext = 0xA1

abbrev pub snmp_pdu_response : ℕ
snmp_pdu_response = 0xA2

abbrev pub snmp_pdu_set : ℕ
snmp_pdu_set = 0xA3

abbrev pub snmp_pdu_getbulk : ℕ
snmp_pdu_getbulk = 0xA5

abbrev pub exc_no_such_instance : ℕ
exc_no_such_instance = 0x81

abbrev pub exc_end_of_mib_view : ℕ
exc_end_of_mib_view = 0x82

abbrev pub snmp_version_2c : ℕ
snmp_version_2c = 1

abbrev pub err_none : ℕ
err_none = 0

abbrev pub err_too_big : ℕ
err_too_big = 1

abbrev pub err_gen_err : ℕ
err_gen_err = 5

abbrev pub err_not_writable : ℕ
err_not_writable = 17

abbrev pub ber_max_oid_len : ℕ
ber_max_oid_len = 32

abbrev pub snmp_tx_buf : ℕ
snmp_tx_buf = 1500

-- The Kconfig values: the read community, and the varbinds of one request.
pub record AgentConfig : Type 0 where
  pub read_community : List ℕ
  pub max_req_vb : ℕ

abbrev pub max_resp_vb : AgentConfig → ℕ
max_resp_vb c = c.max_req_vb + 16

-- `struct resp_vb`. A leaf is an index into the MIB's table, and an exception of 0 is none.
pub record RespVb : Type 0 where
  pub leaf : Option ℕ
  pub name : List ℕ
  pub exception : ℕ

-- `*leaf` of a pointer into the table.
abbrev pub leaf_at : Mib → ℕ → MibLeaf
leaf_at m i = get_or m.leaves i (record { kind = 0; col = 0; row = 0 })

pub emit_varbind : Mib → MibSource → BerEnc → RespVb → BerEnc
emit_varbind m v e vb =
    let mark = ber_mark e in
    let valued : BerEnc =
      if not (vb.exception == 0)
      then ber_put_exception e vb.exception
      else elim vb.leaf [ some i ↦ mib_put_value m v e (leaf_at m i) | none ↦ ber_put_null e ] in
    let named : BerEnc = elim vb.leaf [
      | some i ↦ mib_put_oid valued (leaf_at m i)
      | none ↦ ber_put_oid valued vb.name
    ] in
    ber_wrap named mark tag_sequence

-- The loop over the planned varbinds, the last one first.
pub emit_varbinds : Mib → MibSource → BerEnc → List RespVb → BerEnc
emit_varbinds m v e [] = e
emit_varbinds m v e (vb ∷ vbs) = emit_varbind m v (emit_varbinds m v e vbs) vb

pub encode_response : Mib → MibSource → BerEnc → ℕ → ℕ → ℕ → List ℕ → List RespVb → BerEnc
encode_response m v e request_id err_status err_index community vbs =
    let top = ber_mark e in
    let listed = ber_wrap (emit_varbinds m v e vbs) top tag_sequence in
    let e1 = ber_put_int listed err_index in
    let e2 = ber_put_int e1 err_status in
    let e3 = ber_put_int e2 request_id in
    let pdu = ber_wrap e3 top snmp_pdu_response in
    let e4 = ber_put_octet_str pdu community in
    let e5 = ber_put_int e4 snmp_version_2c in ber_wrap e5 top tag_sequence

abbrev pub encode_error : Mib → MibSource → BerEnc → ℕ → ℕ → ℕ → List ℕ → BerEnc
encode_error m v e request_id err_status err_index community =
    encode_response m v e request_id err_status err_index community []

-- `struct parsed_req`; `nvb` is the length of `names`.
pub record ParsedReq : Type 0 where
  pub pdu_type : ℕ
  pub request_id : ℕ
  pub field2 : ℕ
  pub field3 : ℕ
  pub names : List (List ℕ)
  pub too_many : Bool
  pub community : List ℕ

-- The loop over the varbind list: `n` names are parsed already. The fuel is the bytes left.
unfoldable pub parse_varbinds : ℕ → ℕ → ℕ → List ℕ → Option (List (List ℕ) × Bool)
parse_varbinds fuel max n [] = some ([], false)
parse_varbinds zero max n (b ∷ bs) = none
parse_varbinds (suc fuel) max n (b ∷ bs) = elim (ber_enter (b ∷ bs) tag_sequence) [
  | none ↦ none
  | some (vb, rest) ↦ if leb max n then some ([], true) else elim (ber_get_oid vb ber_max_oid_len) [
    | none ↦ none
    | some (oid, _) ↦ elim (parse_varbinds fuel max (n + 1) rest) [
      | none ↦ none
      | some (names, too_many) ↦ some (oid ∷ names, too_many)
    ]
  ]
]

-- `memcmp` of two texts of one length.
unfoldable pub same_bytes : List ℕ → List ℕ → Bool
same_bytes [] [] = true
same_bytes [] (b ∷ bs) = false
same_bytes (a ∷ as') [] = false
same_bytes (a ∷ as') (b ∷ bs) = if a == b then same_bytes as' bs else false

abbrev pub nonempty : List (List ℕ) → Bool
nonempty [] = false
nonempty (n ∷ ns) = true

-- `none` is `false`: drop the datagram.
unfoldable pub parse_request : AgentConfig → List ℕ → Option ParsedReq
parse_request c buf = do
  (top, _) ← ber_enter buf tag_sequence
  (version, top1) ← ber_get_int top
  guard (version == snmp_version_2c)
  (community, top2) ← ber_get_octet top1
  guard (same_bytes community c.read_community)
  (tag, pdu, _) ← ber_get_tlv top2
  (request_id, pdu1) ← ber_get_int pdu
  (field2, pdu2) ← ber_get_int pdu1
  (field3, pdu3) ← ber_get_int pdu2
  (vbl, _) ← ber_enter pdu3 tag_sequence
  (names, too_many) ← parse_varbinds (length vbl) c.max_req_vb 0 vbl
  guard (nonempty names)
  some (record {
    pdu_type = tag;
    request_id = request_id;
    field2 = field2;
    field3 = field3;
    names = names;
    too_many = too_many;
    community = community;
  })

pub get_vb : Mib → List ℕ → RespVb
get_vb m name =
    let leaf = mib_get_exact m name in
    record {
      leaf = leaf;
      name = name;
      exception = elim leaf [ none ↦ exc_no_such_instance | some i ↦ 0 ];
    }

pub plan_get : Mib → ParsedReq → List RespVb
plan_get m r = map (get_vb m) r.names

pub set_vb_next : Mib → List ℕ → RespVb
set_vb_next m from =
    let leaf = mib_get_next m from in
    record {
      leaf = leaf;
      name = from;
      exception = elim leaf [ none ↦ exc_end_of_mib_view | some i ↦ 0 ];
    }

pub plan_getnext : Mib → ParsedReq → List RespVb
plan_getnext m r = map (set_vb_next m) r.names
