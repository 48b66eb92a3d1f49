-- ===== src/Snmp/Ber/Encoder.antt =====
-- The backward encoder of lib/snmp/snmp_ber.c. The buffer is a memory, a function from indices to
-- bytes; each writer takes the encoder's state and returns the next one.
pub mod Buffer
pub mod Form
pub mod Numbers
pub mod Writers
use microcontroller_devices.Prelude.{ℕ, zero, suc, ◌+◌, ◌-◌, ◌*◌, ◌/◌, ◌%◌, ◌^◌, ltb, leb, ◌==◌}
use microcontroller_devices.Prelude.{Bool, true, false, ◌&&◌, ◌||◌, if◌then◌else◌}
use microcontroller_devices.Prelude.{List, [], ◌∷◌, length}

-- The tags of snmp_ber.h.
abbrev pub tag_integer : ℕ
tag_integer = 0x02

abbrev pub tag_octet_str : ℕ
tag_octet_str = 0x04

abbrev pub tag_null : ℕ
tag_null = 0x05

abbrev pub tag_oid : ℕ
tag_oid = 0x06

abbrev pub tag_sequence : ℕ
tag_sequence = 0x30

abbrev pub tag_ipaddress : ℕ
tag_ipaddress = 0x40

abbrev pub tag_counter32 : ℕ
tag_counter32 = 0x41

abbrev pub tag_gauge32 : ℕ
tag_gauge32 = 0x42

abbrev pub tag_timeticks : ℕ
tag_timeticks = 0x43

-- `struct ber_enc`.
pub record BerEnc : Type 0 where
  pub base : ℕ → ℕ
  pub cap : ℕ
  pub pos : ℕ
  pub overflow : Bool

abbrev pub store : (ℕ → ℕ) → ℕ → ℕ → ℕ → ℕ
store m i b j = if j == i then b else m j

unfoldable pub ber_enc_init : (ℕ → ℕ) → ℕ → BerEnc
ber_enc_init buf cap = record { base = buf; cap = cap; pos = cap; overflow = false }

unfoldable pub ber_enc_length : BerEnc → ℕ
ber_enc_length e = if e.overflow then 0 else e.cap - e.pos

abbrev pub ber_mark : BerEnc → ℕ
ber_mark e = e.pos

pub put_byte : BerEnc → ℕ → BerEnc
put_byte e b =
    if e.overflow || e.pos == 0
    then record e { overflow = true }
    else record e { base = store e.base (e.pos - 1) b; pos = e.pos - 1 }

-- The loop runs from the last byte to the first.
unfoldable pub put_bytes : BerEnc → List ℕ → BerEnc
put_bytes e [] = e
put_bytes e (b ∷ bs) = put_byte (put_bytes e bs) b

-- The loop that emits the little-endian scratch array `tmp`, lowest index first.
pub put_each : BerEnc → List ℕ → BerEnc
put_each e [] = e
put_each e (b ∷ bs) = put_each (put_byte e b) bs

-- `while (len > 0) { tmp[n++] = len & 0xFF; len >>= 8; }`; the fuel is the room in `tmp`.
pub len_bytes : ℕ → ℕ → List ℕ
len_bytes zero len = []
len_bytes (suc f) len =
    let rest = len % 256 ∷ len_bytes f (len / 256) in if ltb 0 len then rest else []

pub put_len : BerEnc → ℕ → BerEnc
put_len e len =
    if ltb len 0x80
    then put_byte e len
    else (let tmp = len_bytes 5 len in put_byte (put_each e tmp) (0x80 + length tmp))

pub ber_wrap : BerEnc → ℕ → ℕ → BerEnc
ber_wrap e mark tag = put_byte (put_len e (mark - e.pos)) tag

-- `(uint32_t)((int32_t)u >> 8)`: the sign bit fills the top byte.
abbrev pub shift_signed : ℕ → ℕ
shift_signed u = u / 256 + (if leb (2 ^ 31) u then 0xFF000000 else 0)

-- The do-while loop of `ber_put_int`; the fuel is the size of `tmp`.
pub int_bytes : ℕ → ℕ → List ℕ
int_bytes zero u = []
int_bytes (suc f) u =
    let b = u % 256 in
    let u' = shift_signed u in
    let more = b ∷ int_bytes f u' in
    if (u' == 0 && ltb b 0x80) || (u' == 0xFFFFFFFF && leb 0x80 b) then b ∷ [] else more

pub ber_put_int : BerEnc → ℕ → BerEnc
ber_put_int e v =
    let tmp = int_bytes 4 v in put_byte (put_len (put_each e tmp) (length tmp)) tag_integer

-- The do-while loop of `ber_put_uint_tagged`: the four bytes of a uint32_t at most.
pub uint_bytes : ℕ → ℕ → List ℕ
uint_bytes zero v = []
uint_bytes (suc f) v =
    let more = v % 256 ∷ uint_bytes f (v / 256) in if ltb 0 (v / 256) then more else v % 256 ∷ []

-- `if (tmp[n - 1] & 0x80) tmp[n++] = 0x00;`
pub pad_sign : List ℕ → List ℕ
pad_sign [] = []
pad_sign (b ∷ []) = if leb 0x80 b then b ∷ 0 ∷ [] else b ∷ []
pad_sign (b ∷ c ∷ bs) = b ∷ pad_sign (c ∷ bs)

pub ber_put_uint_tagged : BerEnc → ℕ → ℕ → BerEnc
ber_put_uint_tagged e v tag =
    let tmp = pad_sign (uint_bytes 4 v) in put_byte (put_len (put_each e tmp) (length tmp)) tag

pub ber_put_octet_str : BerEnc → List ℕ → BerEnc
ber_put_octet_str e s = put_byte (put_len (put_bytes e s) (length s)) tag_octet_str

-- `while (v > 0) { tmp[m++] = (v & 0x7F) | 0x80; v >>= 7; }`; the fuel is the room left in `tmp`.
pub group_tail : ℕ → ℕ → List ℕ
group_tail zero v = []
group_tail (suc f) v =
    let more = (v % 128 + 0x80) ∷ group_tail f (v / 128) in if ltb 0 v then more else []

-- The scratch array of one sub-identifier, low group first.
pub subid_groups : ℕ → List ℕ
subid_groups v = v % 128 ∷ group_tail 4 (v / 128)

-- `for (size_t i = n; i-- > 2;)`: the last sub-identifier first.
pub put_subids : BerEnc → List ℕ → BerEnc
put_subids e [] = e
put_subids e (v ∷ vs) = put_each (put_subids e vs) (subid_groups v)

pub ber_put_oid : BerEnc → List ℕ → BerEnc
ber_put_oid e [] = put_byte (put_len e 0) tag_oid
ber_put_oid e (a ∷ []) = put_byte (put_len e 0) tag_oid
ber_put_oid e (a ∷ b ∷ rest) =
    let start = e.pos in
    let first = (a * 40 + b) % 2 ^ 32 in
    let e' = put_each (put_subids e rest) (subid_groups first) in
    put_byte (put_len e' (start - e'.pos)) tag_oid

pub ber_put_null : BerEnc → BerEnc
ber_put_null e = put_byte (put_byte e 0x00) tag_null

pub ber_put_exception : BerEnc → ℕ → BerEnc
ber_put_exception e exc_tag = put_byte (put_byte e 0x00) exc_tag

-- The four bytes of the address as they lie in memory, network order.
pub ber_put_ipaddress : BerEnc → List ℕ → BerEnc
ber_put_ipaddress e addr = put_byte (put_len (put_bytes e addr) 4) tag_ipaddress
