-- ===== src/Tests/Liveness.antt =====
-- The watchdog record and the feeds of one context.
use microcontroller_devices.Prelude.{◌+◌, ◌%◌}
use microcontroller_devices.Prelude.{◌≡◌, refl, arith}
use microcontroller_devices.Prelude.{true, false}
use microcontroller_devices.Prelude.{none, some, [], ◌∷◌}
use microcontroller_devices.Prelude.Text.{codes}
use microcontroller_devices.Device.Liveness.{
  ResetRecord, Cause, Liveness, rec_magic, rec_none, word, step_bytes, channel_expired,
  liveness_init,
}
use microcontroller_devices.Device.Liveness.Report.{liveness_init-channel_expired}
use microcontroller_devices.Device.Liveness.Feeding.{Alive, app_liveness_feed-Alive}

abbrev running : ResetRecord
running = record {
  magic = rec_magic;
  boots = 4;
  ctx = rec_none;
  uptime_s = 0;
  step = [];
  check = 0;
}

abbrev software : Cause
software = record { por = false }

liveness_init-channel_expired_example :
    let (report, left) = liveness_init (channel_expired running 2 90 (codes "connect")) software in
    (report.boots ≡ (4 + 1) % word)
    × (report.stall ≡ some (2, step_bytes (codes "connect")))
    × ((liveness_init left software).0.stall ≡ none)
liveness_init-channel_expired_example =
    liveness_init-channel_expired running 2 90 (codes "connect") software software refl
      (omega arith) refl

abbrev watched : Liveness
watched = record { ready = true; last_feed = none ∷ some 500 ∷ [] }

app_liveness_feed-Alive_example : Alive true 30000 1 500 watched (900 ∷ 1600 ∷ 9000 ∷ [])
app_liveness_feed-Alive_example =
    app_liveness_feed-Alive true 30000 8000 1 500 500 watched (900 ∷ 1600 ∷ 9000 ∷ []) (omega arith)
      (record {
        ready = refl;
        watched = omega arith;
        last_is = refl;
        recent = omega arith;
        past = omega arith;
      })
      (omega arith, omega arith, (omega arith, omega arith, (omega arith, omega arith, tt)))
