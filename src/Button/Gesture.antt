-- ===== src/Button/Gesture.antt =====
-- lib/common/button_gesture.c and button_gesture.h: the classifier of presses on sw0.
-- Times are milliseconds of uptime, so a test on a difference `now - at >= ms` is `at + ms <= now`.
pub mod Pattern
pub mod Erase
use microcontroller_devices.Prelude.{ℕ, zero, suc, ◌+◌, ◌-◌, ◌*◌, ◌/◌, ◌%◌, ◌^◌, ◌≤◌, ◌<◌}
use microcontroller_devices.Prelude.{ltb, leb, ◌==◌, if◌then◌else◌, ltb→lt, lt→ltb, leb→le, ==_iff}
use microcontroller_devices.Prelude.{◌≡◌, ◌≢◌, refl, sym, ap, ap₂, ◌∙◌, arith, ◌⊎◌, inl, inr, ◌↔◌}
use microcontroller_devices.Prelude.{Bool, true, false, ◌&&◌, ◌||◌, not, Bool-cases, Option-cases}
use microcontroller_devices.Prelude.{
  Option, none, some, List, [], ◌∷◌, ◌++◌, append-nil, append_assoc,
}
use microcontroller_devices.Prelude.{reverse, length, length-append, take, drop, All, All-append}
use Prim.Native.Nat.{max}
use microcontroller_devices.Prelude.{get_elem?, get_or, set, length-set}

-- `enum gesture`.
pub data Gesture : Type 0 where
  gesture_none : Gesture
  provision : Gesture
  erase_armed : Gesture
  erase : Gesture
  identify : Gesture

pub record GestureCfg : Type 0 where
  pub press_count : ℕ
  pub identify_count : ℕ
  pub window_ms : ℕ
  pub short_max_ms : ℕ
  pub quiet_ms : ℕ
  pub erase_ms : ℕ

pub record GestureState : Type 0 where
  pub cfg : GestureCfg
  pub pressed : Bool
  pub armed : Bool
  pub spoiled : Bool
  pub presses : ℕ
  pub first_press : ℕ
  pub press_at : ℕ
  pub last_release : ℕ

abbrev pub reset_sequence : GestureState → GestureState
reset_sequence g = record g { presses = 0; spoiled = false; armed = false }

abbrev pub erase_on : GestureState → Bool
erase_on g = ltb 0 g.cfg.erase_ms

pub gesture_init : GestureCfg → GestureState
gesture_init cfg = record {
  cfg = cfg;
  pressed = false;
  armed = false;
  spoiled = false;
  presses = 0;
  first_press = 0;
  press_at = 0;
  last_release = 0;
}

pub gesture_press : GestureState → ℕ → Gesture × GestureState
gesture_press g now = if g.pressed then (gesture_none, g) else (
  gesture_none,
  record g {
    pressed = true;
    press_at = now;
    first_press = if g.presses == 0 then now else g.first_press;
  },
)

-- The rest of a release that is not an erase: it counts as a press of the sequence.
abbrev pub count_press : GestureState → ℕ → GestureState
count_press g now =
    let presses = (g.presses + 1) % 2 ^ 32 in
    record g {
      pressed = false;
      presses = presses;
      last_release = now;
      spoiled =
          g.spoiled
          || leb (g.press_at + g.cfg.short_max_ms) now
          || ltb (max g.cfg.press_count g.cfg.identify_count) presses
          || ltb (g.first_press + g.cfg.window_ms) now;
    }

pub gesture_release : GestureState → ℕ → Gesture × GestureState
gesture_release g now =
    if not g.pressed
    then (gesture_none, g)
    else (if g.armed || (erase_on g && leb (g.press_at + g.cfg.erase_ms) now)
        then (erase, reset_sequence (record g { pressed = false }))
        else (gesture_none, count_press g now))

-- The gesture of a sequence of `n` presses that ended, where 0 stands for a spoiled one.
abbrev pub ended : GestureCfg → ℕ → Gesture
ended cfg n =
    if n == 0
    then gesture_none
    else (if n == cfg.press_count
        then provision
        else (if n == cfg.identify_count then identify else gesture_none))

pub gesture_tick : GestureState → ℕ → Gesture × GestureState
gesture_tick g now =
    if g.pressed
    then (if erase_on g && not g.armed && leb (g.press_at + g.cfg.erase_ms) now
        then (erase_armed, record g { armed = true })
        else (gesture_none, g))
    else (if ltb 0 g.presses && leb (g.last_release + g.cfg.quiet_ms) now
        then (ended g.cfg (if g.spoiled then 0 else g.presses), reset_sequence g)
        else (gesture_none, g))

pub gesture_busy : GestureState → Bool
gesture_busy g = g.pressed || ltb 0 g.presses

-- The debounced edges and the ticks, with their times.
pub data Event : Type 0 where
  press : ℕ → Event
  release : ℕ → Event
  tick : ℕ → Event

pub feed : GestureState → Event → Gesture × GestureState
feed g (press now) = gesture_press g now
feed g (release now) = gesture_release g now
feed g (tick now) = gesture_tick g now

-- The gestures that a sequence of events produces, and the state behind it.
pub run : GestureState → List Event → List Gesture × GestureState
run g [] = ([], g)
run g (e ∷ es) = let (r, g') = feed g e in let (rs, g'') = run g' es in (r ∷ rs, g'')
