-- ===== src/Device/Liveness/Report.antt =====
-- The report at the boot behind a stall.
use microcontroller_devices.Prelude.{ℕ, ◌+◌, ◌%◌, ◌<◌}
use microcontroller_devices.Prelude.{◌==◌, if◌then◌else◌}
use microcontroller_devices.Prelude.{◌≡◌, refl, ap, ◌∙◌, arith}
use microcontroller_devices.Prelude.{Bool, true, false, ◌&&◌, not}
use microcontroller_devices.Prelude.{Option, none, some, List}
use microcontroller_devices.Device.Liveness.{
  ResetRecord, Cause, rec_magic, rec_none, word, known_record, stall_of, rec_check, rec_seal,
  step_bytes, channel_expired, valid_record, liveness_init,
}

==_refl : (n : ℕ) → (n == n) ≡ true
==_refl n = ground arith

sealed_valid :
    (r : ResetRecord) (c : Cause)
    → r.magic ≡ rec_magic
    → c.por ≡ false
    → valid_record (rec_seal r) c ≡ true
unfolding valid_record rec_seal rec_check
sealed_valid r c m p =
    all_three (r.magic == rec_magic) (rec_check r == rec_check r) c.por (ap (λ x. x == rec_magic) m)
      (==_refl (rec_check r)) p
  where
    all_three : (a b c : Bool) → a ≡ true → b ≡ true → c ≡ false → (a && b && not c) ≡ true
    all_three true true false h i j = refl
    all_three true true true h i j = cc
    all_three true false c h i j = cc
    all_three false b c h i j = cc

-- A record without a stall is reported without one, whether it is valid or not.
no_stall : (r : ResetRecord) (c : Cause) → r.ctx ≡ rec_none → (liveness_init r c).0.stall ≡ none
unfolding liveness_init
no_stall r c h = cases (valid_record r c)
  where
    none_at :
        (n : ℕ) (s : List ℕ)
        → n ≡ rec_none
        → (let o : Option (ℕ × List ℕ) = if n == rec_none then none else some (n, s) in o) ≡ none
    none_at n s h = rw (ap (λ x. x == rec_none) h)

    cases : (b : Bool) → stall_of (known_record b r) ≡ none
    cases true = none_at r.ctx r.step h
    cases false = refl

valid_report :
    (r : ResetRecord) (c : Cause)
    → valid_record r c ≡ true
    → r.ctx < rec_none
    → ((liveness_init r c).0.boots ≡ (r.boots + 1) % word)
      × ((liveness_init r c).0.stall ≡ some (r.ctx, r.step))
unfolding liveness_init
valid_report r c v h = (
  ap (λ b. ((known_record b r).boots + 1) % word) v,
  ap (λ b. stall_of (known_record b r)) v ∙ rw (other r.ctx h),
)
  where
    other : (n : ℕ) → n < 255 → (n == 255) ≡ false
    other n h = ground arith

cleared : (r : ResetRecord) (c : Cause) → (liveness_init r c).1.ctx ≡ rec_none
unfolding liveness_init rec_seal
cleared r c = refl

-- The boot behind a stall, if it was no power-on, counts one boot more and reports the context
-- and the step that `channel_expired` recorded, and the boot behind that one reports no stall.
-- The record was initialised and the context is not 255.
pub liveness_init-channel_expired :
    (r : ResetRecord) (ctx uptime_s : ℕ) (step : List ℕ) (c c' : Cause)
    → r.magic ≡ rec_magic
    → ctx < rec_none
    → c.por ≡ false
    → let (report, left) = liveness_init (channel_expired r ctx uptime_s step) c in
      (report.boots ≡ (r.boots + 1) % word)
      × (report.stall ≡ some (ctx, step_bytes step))
      × ((liveness_init left c').0.stall ≡ none)
unfolding channel_expired rec_seal
liveness_init-channel_expired r ctx uptime_s step c c' m h p =
    let r' : ResetRecord = record r {
      ctx = ctx;
      uptime_s = uptime_s % word;
      step = step_bytes step;
    } in
    let (a, b) = valid_report (rec_seal r') c (sealed_valid r' c m p) h in
    (a, b, no_stall (liveness_init (rec_seal r') c).1 c' (cleared (rec_seal r') c))
