-- ===== src/Ztp/Manifest.antt =====
-- The parsers of apps/wifi-provisioner/src/ztp_manifest.c: the server's response and the manifest in it.
pub mod Lines
pub mod Enroll
pub mod Modules
pub mod Runs
use microcontroller_devices.Prelude.{ℕ, zero, suc, ◌+◌, ◌-◌, ◌*◌, ◌/◌, ◌%◌, ◌^◌, ◌≤◌, ◌<◌}
use microcontroller_devices.Prelude.{ltb, leb, ◌==◌, if◌then◌else◌, ltb→lt, lt→ltb, leb→le, ==_iff}
use microcontroller_devices.Prelude.{◌≡◌, ◌≢◌, refl, sym, ap, ap₂, ◌∙◌, arith, ◌⊎◌, inl, inr, ◌↔◌}
use microcontroller_devices.Prelude.{Bool, true, false, ◌&&◌, ◌||◌, not, Bool-cases, Option-cases}
use microcontroller_devices.Prelude.{
  Option, none, some, List, [], ◌∷◌, ◌++◌, append-nil, append_assoc,
}
use microcontroller_devices.Prelude.{reverse, length, length-append, take, drop, All, All-append}
use microcontroller_devices.Prelude.{get_elem?, get_or, set, length-set}
use microcontroller_devices.Prelude.Int.{ℤ, pos}
use microcontroller_devices.Prelude.Chain.{◌>>=◌}
use microcontroller_devices.Prelude.Text.{codes, text_eq, split_first}
use microcontroller_devices.Ztp.Time.{parse_uint, ztp_parse_rfc3339}

unfoldable pub ztp_slice_eq : List ℕ → List ℕ → Bool
ztp_slice_eq s lit = length s == length lit && text_eq s lit

-- `struct ztp_kv`.
pub record Kv : Type 0 where
  pub key : List ℕ
  pub val : List ℕ

abbrev pub split_or : List ℕ → Option (List ℕ × List ℕ) → List ℕ × List ℕ
split_or cur none = (cur, [])
split_or cur (some (line, rest)) = (line, rest)

-- The first line, without its line feed, and what follows it.
unfoldable pub first_line : List ℕ → List ℕ × List ℕ
first_line cur = split_or cur (split_first 10 cur)

-- A carriage return at the end of a line is dropped.
unfoldable pub strip_cr : List ℕ → List ℕ
strip_cr [] = []
strip_cr (c ∷ []) = if c == 13 then [] else c ∷ []
strip_cr (c ∷ d ∷ s) = c ∷ strip_cr (d ∷ s)

abbrev pub split_kv : Option (List ℕ × List ℕ) → Option Kv
split_kv none = none
split_kv (some (k, v)) = some (record { key = k; val = v })

unfoldable pub kv_of : List ℕ → Option Kv
kv_of line = split_kv (split_first 61 line)

abbrev pub kv_or : Option Kv → List ℕ → Option (Kv × List ℕ) → Option (Kv × List ℕ)
kv_or none rest later = later
kv_or (some kv) rest later = some (kv, rest)

-- The loop of `ztp_kv_next`, at most `fuel` lines of it. A cursor is what remains of the text.
unfoldable pub kv_loop : ℕ → List ℕ → Option (Kv × List ℕ)
kv_loop zero cur = none
kv_loop (suc fuel) [] = none
kv_loop (suc fuel) (c ∷ cs) =
    let (line, rest) = first_line (c ∷ cs) in
    let later = kv_loop fuel rest in kv_or (kv_of (strip_cr line)) rest later

-- `none` is `false`. A line takes at least one byte.
unfoldable pub ztp_kv_next : List ℕ → Option (Kv × List ℕ)
ztp_kv_next cur = kv_loop (length cur) cur

-- The records that `while (ztp_kv_next(...))` goes through, at most `fuel` of them.
unfoldable pub kv_list : ℕ → List ℕ → List Kv
kv_list zero cur = []
kv_list (suc fuel) cur = elim (ztp_kv_next cur) [
  | none ↦ []
  | some (kv, rest) ↦ kv ∷ kv_list fuel rest
]

abbrev pub records_of : List ℕ → List Kv
records_of buf = kv_list (length buf) buf

-- `enum ztp_status`.
pub data Status : Type 0 where
  unknown : Status
  accepted : Status
  pending : Status
  rejected : Status

-- `struct ztp_response`.
pub record Response : Type 0 where
  pub status : Status
  pub reason : List ℕ
  pub retry_after : ℕ
  pub server_time : ℤ
  pub manifest : List ℕ
  pub encrypted : Bool

abbrev pub no_response : Response
no_response = record {
  status = unknown;
  reason = [];
  retry_after = 0;
  server_time = pos 0;
  manifest = [];
  encrypted = false;
}

unfoldable pub status_of : List ℕ → Status
status_of v =
    if ztp_slice_eq v (codes "accepted")
    then accepted
    else if ztp_slice_eq v (codes "pending")
    then pending
    else if ztp_slice_eq v (codes "rejected")
    then rejected
    else unknown

-- An out parameter that is written on success only.
abbrev pub or_keep : {A : Type 0} → Option A → A → A
or_keep none a = a
or_keep (some b) a = b

-- One turn of the loop of `ztp_response_parse`, on `version_ok` and the response.
unfoldable pub response_kv : Bool × Response → Kv → Bool × Response
response_kv (version_ok, r) kv =
    if ztp_slice_eq kv.key (codes "protocol_version")
    then (ztp_slice_eq kv.val (codes "1"), r)
    else if ztp_slice_eq kv.key (codes "status")
    then (version_ok, record r { status = status_of kv.val })
    else if ztp_slice_eq kv.key (codes "reason")
    then (version_ok, record r { reason = kv.val })
    else if ztp_slice_eq kv.key (codes "retry_after")
    then (version_ok, record r { retry_after = or_keep (parse_uint kv.val) r.retry_after })
    else if ztp_slice_eq kv.key (codes "server_time")
    then (version_ok, record r { server_time = or_keep (ztp_parse_rfc3339 kv.val) r.server_time })
    else if ztp_slice_eq kv.key (codes "manifest.payload")
    then (version_ok, record r { manifest = kv.val })
    else if ltb 10 (length kv.key) && text_eq (take 10 kv.key) (codes "encrypted.")
    then (version_ok, record r { encrypted = true })
    else (version_ok, r)

abbrev pub fold_left : {A B : Type 0} → (A → B → A) → A → List B → A
fold_left f a [] = a
fold_left f a (b ∷ bs) = fold_left f (f a b) bs

abbrev pub is_unknown : Status → Bool
is_unknown unknown = true
is_unknown accepted = false
is_unknown pending = false
is_unknown rejected = false

-- `true` is 0 and `false` is -EPROTO; the response is written in both cases.
unfoldable pub ztp_response_parse : List ℕ → Bool × Response
ztp_response_parse buf =
    let (version_ok, r) = fold_left response_kv (false, no_response) (records_of buf) in
    (version_ok && not (is_unknown r.status), r)

-- `struct ztp_manifest_hdr`.
pub record Header : Type 0 where
  pub device_id : List ℕ
  pub version_ok : Bool

unfoldable pub header_kv : Header → Kv → Header
header_kv h kv =
    if ztp_slice_eq kv.key (codes "device_id")
    then record h { device_id = kv.val }
    else if ztp_slice_eq kv.key (codes "protocol_version")
    then record h { version_ok = ztp_slice_eq kv.val (codes "1") }
    else h

unfoldable pub ztp_manifest_header : List ℕ → Header
ztp_manifest_header buf =
    fold_left header_kv (record { device_id = []; version_ok = false }) (records_of buf)

abbrev pub field_of : List ℕ → Option (List ℕ × List ℕ) → List ℕ × List ℕ
field_of s none = (s, [])
field_of s (some (field, post)) = (field, 32 ∷ post)

-- The field that is split off, and what is left of the slice.
unfoldable pub next_field : List ℕ → Option (List ℕ × List ℕ)
next_field [] = none
next_field (c ∷ s) =
    let rest = next_field s in
    if c == 32 then rest else some (field_of (c ∷ s) (split_first 32 (c ∷ s)))

-- `struct ztp_module`: the constructor is `sealed`.
pub data Module : Type 0 where
  clear : (type payload : List ℕ) → Module
  sealed : (type format eph nonce ciphertext : List ℕ) → Module

abbrev pub type_of : Module → List ℕ
type_of (clear type payload) = type
type_of (sealed type format eph nonce ciphertext) = type

abbrev pub clear_fields : List ℕ → Option Module
clear_fields rest = do
  (type, rest) ← next_field rest
  (payload, rest) ← next_field rest
  some (clear type payload)

abbrev pub sealed_fields : List ℕ → Option Module
sealed_fields rest = do
  (type, rest) ← next_field rest
  (format, rest) ← next_field rest
  (eph, rest) ← next_field rest
  (nonce, rest) ← next_field rest
  (ciphertext, rest) ← next_field rest
  some (sealed type format eph nonce ciphertext)

-- The results of `ztp_manifest_next_module`: 1, 0 and -EPROTO.
pub data Next : Type 0 where
  module_found : Module → List ℕ → Next
  at_end : Next
  malformed : Next

abbrev pub found_or_malformed : Option Module → List ℕ → Next
found_or_malformed none cur = malformed
found_or_malformed (some m) cur = module_found m cur

unfoldable pub module_loop : ℕ → List ℕ → Next
module_loop zero cur = at_end
module_loop (suc fuel) cur = elim (ztp_kv_next cur) [
  | none ↦ at_end
  | some (kv, rest) ↦
      let later = module_loop fuel rest in
      if ztp_slice_eq kv.key (codes "module")
      then found_or_malformed (clear_fields kv.val) rest
      else if ztp_slice_eq kv.key (codes "module-sealed")
      then found_or_malformed (sealed_fields kv.val) rest
      else later
]

unfoldable pub ztp_manifest_next_module : List ℕ → Next
ztp_manifest_next_module cur = module_loop (length cur) cur
