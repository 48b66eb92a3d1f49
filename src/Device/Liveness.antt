-- ===== src/Device/Liveness.antt =====
-- lib/common/liveness.c: the watchdog channels and the record that survives a reset.
pub mod Feeding
pub mod Report
use microcontroller_devices.Prelude.{ℕ, zero, suc, ◌+◌, ◌-◌, ◌*◌, ◌/◌, ◌%◌, ◌^◌, ◌≤◌, ◌<◌}
use microcontroller_devices.Prelude.{ltb, leb, ◌==◌, if◌then◌else◌, ltb→lt, lt→ltb, leb→le, ==_iff}
use microcontroller_devices.Prelude.{◌≡◌, ◌≢◌, refl, sym, ap, ap₂, ◌∙◌, arith, ◌⊎◌, inl, inr, ◌↔◌}
use microcontroller_devices.Prelude.{Bool, true, false, ◌&&◌, ◌||◌, not, Bool-cases, Option-cases}
use microcontroller_devices.Prelude.{
  Option, none, some, List, [], ◌∷◌, ◌++◌, append-nil, append_assoc,
}
use microcontroller_devices.Prelude.{reverse, length, length-append, take, drop, All, All-append}
use microcontroller_devices.Prelude.{get_elem?, get_or, set, length-set}
use microcontroller_devices.Prelude.{replicate}
use Prim.Native.Nat.{bit_xor}

abbrev pub feed_min_ms : ℕ
feed_min_ms = 1000

abbrev pub rec_magic : ℕ
rec_magic = 0x4C495645

abbrev pub rec_none : ℕ
rec_none = 0xFF

-- `struct reset_record`; `step` has 16 bytes.
pub record ResetRecord : Type 0 where
  pub magic : ℕ
  pub boots : ℕ
  pub ctx : ℕ
  pub uptime_s : ℕ
  pub step : List ℕ
  pub check : ℕ

abbrev pub word : ℕ
word = 2 ^ 32

-- The loop of `rec_check`.
unfoldable pub mix_step : ℕ → List ℕ → ℕ
mix_step h [] = h
mix_step h (b ∷ bs) = mix_step (bit_xor (h * 2 % word) b) bs

unfoldable pub rec_check : ResetRecord → ℕ
rec_check r =
    word
    - 1
    - mix_step (bit_xor (bit_xor (bit_xor r.magic r.boots) (r.ctx * 256 % word)) r.uptime_s) r.step

unfoldable pub rec_seal : ResetRecord → ResetRecord
rec_seal r = record r { check = rec_check r }

-- A string in `step`: at most 15 bytes, and NULs behind them.
abbrev pub step_bytes : List ℕ → List ℕ
step_bytes s = let t = take 15 s in t ++ replicate (16 - length t) 0

-- The record that the callback leaves; the reset follows.
unfoldable pub channel_expired : ResetRecord → (ctx uptime_s : ℕ) → List ℕ → ResetRecord
channel_expired r ctx uptime_s step =
    rec_seal (record r { ctx = ctx; uptime_s = uptime_s % word; step = step_bytes step })

-- The reset cause: whether it has the bit RESET_POR.
pub record Cause : Type 0 where
  pub por : Bool

-- What the boot lines say: the boots, and the context and the step of a stall.
pub record BootReport : Type 0 where
  pub boots : ℕ
  pub stall : Option (ℕ × List ℕ)

unfoldable pub valid_record : ResetRecord → Cause → Bool
valid_record r c = r.magic == rec_magic && r.check == rec_check r && not c.por

abbrev pub clear_first : List ℕ → List ℕ
clear_first s = set s 0 0

abbrev pub fresh_record : ResetRecord → ResetRecord
fresh_record r = record r {
  magic = rec_magic;
  boots = 0;
  ctx = rec_none;
  uptime_s = 0;
  step = clear_first r.step;
}

abbrev pub known_record : Bool → ResetRecord → ResetRecord
known_record true r = r
known_record false r = fresh_record r

abbrev pub stall_of : ResetRecord → Option (ℕ × List ℕ)
stall_of r = if r.ctx == rec_none then none else some (r.ctx, r.step)

-- `liveness_init` up to the seal: the report and the record that it leaves.
unfoldable pub liveness_init : ResetRecord → Cause → BootReport × ResetRecord
liveness_init r c =
    let known = known_record (valid_record r c) r in
    let boots = (known.boots + 1) % word in
    (
      record { boots = boots; stall = stall_of known },
      rec_seal
          (record known { boots = boots; ctx = rec_none; uptime_s = 0; step = replicate 16 0 }),
    )

-- `ready`, and for each context the time of its last feed, `none` while `chan` is negative.
pub record Liveness : Type 0 where
  pub ready : Bool
  pub last_feed : List (Option ℕ)

-- `adds` is that `task_wdt_add` succeeds. The second part is that the watchdog channel was added
-- or fed.
abbrev pub feed_channel : Bool → ℕ → ℕ → Liveness → Option ℕ → Liveness × Bool
feed_channel adds ctx now l none =
    if adds
    then (record l { last_feed = set l.last_feed ctx (some now) }, true)
    else (record l { ready = false }, false)
feed_channel adds ctx now l (some last) =
    if ltb now (last + feed_min_ms)
    then (l, false)
    else (record l { last_feed = set l.last_feed ctx (some now) }, true)

unfoldable pub app_liveness_feed : Bool → ℕ → ℕ → Liveness → Liveness × Bool
app_liveness_feed adds ctx now l =
    if not l.ready || leb (length l.last_feed) ctx
    then (l, false)
    else feed_channel adds ctx now l (get_or l.last_feed ctx none)
