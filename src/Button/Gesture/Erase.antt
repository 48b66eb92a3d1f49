-- ===== src/Button/Gesture/Erase.antt =====
-- The erase hold of lib/common/button_gesture.c.
use microcontroller_devices.Prelude.{ℕ, ◌+◌, ◌≤◌, ◌<◌}
use microcontroller_devices.Prelude.{◌≡◌, arith, ◌⊎◌, ◌↔◌}
use microcontroller_devices.Prelude.{Bool, true, false}
use microcontroller_devices.Prelude.{List, [], ◌∷◌}
use microcontroller_devices.Prelude.{All}
use microcontroller_devices.Button.Gesture.{
  Gesture, gesture_none, provision, erase_armed, erase, identify, GestureCfg, GestureState,
  gesture_init, gesture_press, gesture_release, gesture_tick, Event, press, release, tick, feed,
  run,
}

-- An armed erase belongs to a press that still lasts, in a configuration with an erase hold.
pub record IsValid (g : GestureState) : Type 0 where
  pub held : g.armed ≡ true → g.pressed ≡ true
  pub enabled : g.armed ≡ true → 0 < g.cfg.erase_ms

pub gesture_init-IsValid : (cfg : GestureCfg) → IsValid (gesture_init cfg)
unfolding gesture_init
gesture_init-IsValid cfg = record { held = λ h. cc; enabled = λ h. cc }

press-IsValid :
    (g : GestureState) (now : ℕ)
    → IsValid g
    → IsValid (gesture_press g now).1 × ((gesture_press g now).1.cfg ≡ g.cfg)
unfolding gesture_press
press-IsValid g now h = (
  record { held = λ a. ground (arith, h.held); enabled = λ a. ground (arith, h.enabled) },
  ground arith,
)

release-IsValid :
    (g : GestureState) (now : ℕ)
    → IsValid g
    → IsValid (gesture_release g now).1 × ((gesture_release g now).1.cfg ≡ g.cfg)
unfolding gesture_release
release-IsValid g now h = (
  record { held = λ a. ground (arith, h.held); enabled = λ a. ground (arith, h.enabled) },
  ground arith,
)

tick-IsValid :
    (g : GestureState) (now : ℕ)
    → IsValid g
    → IsValid (gesture_tick g now).1 × ((gesture_tick g now).1.cfg ≡ g.cfg)
unfolding gesture_tick
tick-IsValid g now h = (
  record { held = λ a. ground (arith, h.held); enabled = λ a. ground (arith, h.enabled) },
  ground arith,
)

-- An event keeps the classifier well formed, and its configuration.
pub feed-IsValid :
    (g : GestureState) (e : Event) → IsValid g → IsValid (feed g e).1 × ((feed g e).1.cfg ≡ g.cfg)
unfolding feed
feed-IsValid g (press now) h = press-IsValid g now h
feed-IsValid g (release now) h = release-IsValid g now h
feed-IsValid g (tick now) h = tick-IsValid g now h

-- The two reports that belong to the erase hold.
abbrev pub is_erase : Gesture → Bool
is_erase erase = true
is_erase erase_armed = true
is_erase gesture_none = false
is_erase provision = false
is_erase identify = false

feed_erase_off :
    (g : GestureState) (e : Event) → IsValid g → g.cfg.erase_ms ≡ 0 → is_erase (feed g e).0 ≡ false
unfolding feed gesture_press gesture_release gesture_tick
feed_erase_off g (press now) h z = ground arith
feed_erase_off g (release now) h z = ground (arith, h.enabled)
feed_erase_off g (tick now) h z = ground (arith, h.enabled)

run_erase_off :
    (g : GestureState) (es : List Event)
    → IsValid g
    → g.cfg.erase_ms ≡ 0
    → All (λ r. is_erase r ≡ false) (run g es).0
unfolding run
run_erase_off g [] h z = tt
run_erase_off g (e ∷ es) h z =
    let k : IsValid (feed g e).1 × ((feed g e).1.cfg ≡ g.cfg) = feed-IsValid g e h in
    (feed_erase_off g e h z, run_erase_off (feed g e).1 es k.0 (rw k.1 z))

-- With `erase_ms` at 0 no sequence of edges and ticks, from `gesture_init` on, reports an erase
-- or an armed erase.
pub gesture_init_erase_off :
    (cfg : GestureCfg) (es : List Event)
    → cfg.erase_ms ≡ 0
    → All (λ r. is_erase r ≡ false) (run (gesture_init cfg) es).0
gesture_init_erase_off cfg es z =
    run_erase_off (gesture_init cfg) es (gesture_init-IsValid cfg) (unfold gesture_init in z)

-- A release reports an erase exactly where the button was pressed and the hold was armed, or
-- lasted at least `erase_ms` in a configuration with an erase hold.
pub gesture_release-erase_iff :
    (g : GestureState) (now : ℕ)
    → ((gesture_release g now).0 ≡ erase) ↔ (
        (g.pressed ≡ true)
        × ((g.armed ≡ true) ⊎ ((0 < g.cfg.erase_ms) × (g.press_at + g.cfg.erase_ms ≤ now))))
unfolding gesture_release
gesture_release-erase_iff g now = ground arith
