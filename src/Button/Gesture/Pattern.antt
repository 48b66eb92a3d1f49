-- ===== src/Button/Gesture/Pattern.antt =====
-- The press patterns: what a sequence of presses is classified as.
use microcontroller_devices.Prelude.{ℕ, ◌+◌, ◌^◌, ◌≤◌, ◌<◌}
use microcontroller_devices.Prelude.{ltb, leb, if◌then◌else◌, lt→ltb}
use microcontroller_devices.Prelude.{◌≡◌, refl, sym, ◌∙◌, arith}
use microcontroller_devices.Prelude.{Bool, true, false, ◌&&◌, ◌||◌, not}
use microcontroller_devices.Prelude.{List, [], ◌∷◌}
use microcontroller_devices.Prelude.{length, All}
use mathlib.Core.Path.{subst}
use microcontroller_devices.Prelude.{le→leb}
use Prim.Native.Nat.{max}
use microcontroller_devices.Button.Gesture.{
  Gesture, gesture_none, GestureCfg, GestureState, gesture_init, gesture_press, gesture_release,
  gesture_tick, ended, Event, press, release, feed, run,
}

-- A press and its release.
pub record Tap : Type 0 where
  pub pressed_at : ℕ
  pub released_at : ℕ

abbrev pub events : List Tap → List Event
events [] = []
events (t ∷ ts) = press t.pressed_at ∷ release t.released_at ∷ events ts

-- A press that is not an erase hold.
abbrev pub NoHold : GestureCfg → Tap → Type 0
NoHold cfg t = (0 < cfg.erase_ms) → t.released_at < t.pressed_at + cfg.erase_ms

-- A short press that ends within the window.
abbrev pub good_tap : GestureCfg → ℕ → Tap → Bool
good_tap cfg first t =
    ltb t.released_at (t.pressed_at + cfg.short_max_ms) && leb t.released_at (first + cfg.window_ms)

abbrev pub all_good : GestureCfg → ℕ → List Tap → Bool
all_good cfg first [] = true
all_good cfg first (t ∷ ts) = good_tap cfg first t && all_good cfg first ts

abbrev pub last_release : ℕ → List Tap → ℕ
last_release at [] = at
last_release at (t ∷ ts) = last_release t.released_at ts

-- The gesture that a sequence of presses means: short presses within the window of the first, as
-- many as the provisioning or the identify pattern has.
abbrev pub meaning : GestureCfg → Tap → List Tap → Gesture
meaning cfg t ts =
    let n = 1 + length ts in
    if all_good cfg t.pressed_at (t ∷ ts) && leb n (max cfg.press_count cfg.identify_count)
    then ended cfg n
    else gesture_none

-- The state in a sequence of `n` presses, between two presses.
record After (cfg : GestureCfg) (first n : ℕ) (good : Bool) (at : ℕ) (g : GestureState)
    : Type 0 where
  same_cfg : g.cfg ≡ cfg
  is_up : g.pressed ≡ false
  not_armed : g.armed ≡ false
  counted : g.presses ≡ n
  started : 0 < n → g.first_press ≡ first
  judged : g.spoiled ≡ not (good && leb n (max cfg.press_count cfg.identify_count))
  ended_at : 0 < n → g.last_release ≡ at

pressed : GestureState → Tap → GestureState
pressed g t = (gesture_press g t.pressed_at).1

tapped : GestureState → Tap → GestureState
tapped g t = (gesture_release (pressed g t) t.released_at).1

judge :
    (good : Bool) (n m short rel win : ℕ)
    → (not (good && leb n m) || leb short rel || ltb m (n + 1) || ltb win rel)
      ≡ not (good && (ltb rel short && leb rel win) && leb (n + 1) m)
judge true n m short rel win = ground arith
judge false n m short rel win = ground arith

-- One press of a sequence, that is not an erase hold, counts.
tap-After :
    (cfg : GestureCfg) (first n : ℕ) (good : Bool) (at : ℕ) (g : GestureState) (t : Tap)
    → After cfg first n good at g
    → (n ≡ 0 → t.pressed_at ≡ first)
    → NoHold cfg t
    → n + 1 < 2 ^ 32
    → After cfg first (n + 1) (good && good_tap cfg first t) t.released_at (tapped g t)
      × ((gesture_press g t.pressed_at).0 ≡ gesture_none)
      × ((gesture_release (pressed g t) t.released_at).0 ≡ gesture_none)
unfolding tapped pressed gesture_press gesture_release
tap-After cfg first n good at g t h z k l = (
  record {
    same_cfg = ground (arith, h.same_cfg, h.is_up, h.not_armed);
    is_up = ground (arith, h.same_cfg, h.is_up, h.not_armed);
    not_armed = ground (arith, h.same_cfg, h.is_up, h.not_armed);
    counted = ground (arith, h.same_cfg, h.is_up, h.not_armed, h.counted);
    started = λ p. ground (arith, h.is_up, h.counted, h.started);
    judged =
        spoil
        ∙ judge good n (max cfg.press_count cfg.identify_count) (t.pressed_at + cfg.short_max_ms)
            t.released_at (first + cfg.window_ms);
    ended_at = λ p. ground (arith, h.same_cfg, h.is_up, h.not_armed);
  },
  ground arith,
  ground arith,
)
  where
    spoil : (tapped g t).spoiled ≡ (
        not (good && leb n (max cfg.press_count cfg.identify_count))
        || leb (t.pressed_at + cfg.short_max_ms) t.released_at
        || ltb (max cfg.press_count cfg.identify_count) (n + 1)
        || ltb (first + cfg.window_ms) t.released_at)
    spoil = rw (← h.judged) (ground (arith, h.same_cfg, h.is_up, h.not_armed, h.counted, h.started))

taps-After :
    (cfg : GestureCfg) (first : ℕ) (ts : List Tap) (n : ℕ) (good : Bool) (at : ℕ) (g : GestureState)
    → After cfg first n good at g
    → 0 < n
    → All (NoHold cfg) ts
    → n + length ts < 2 ^ 32
    → After cfg first
        (n + length ts)
        (good && all_good cfg first ts)
        (last_release at ts)
        (run g (events ts)).1
      × All (λ r. r ≡ gesture_none) (run g (events ts)).0
unfolding run feed tapped pressed
taps-After cfg first [] n good at g h p k l =
    let same : n + 0 ≡ n = omega arith in
    let judged_same : (good && true) ≡ good = ground arith in
    (
      subst (λ k. After cfg first k (good && true) at g) (sym same)
          (subst (λ b. After cfg first n b at g) (sym judged_same) h),
      tt,
    )
taps-After cfg first (t ∷ ts) n good at g h p k l =
    let (one, quiet_press, quiet_release) =
      tap-After cfg first n good at g t h (λ z. absurd (omega arith)) k.0 (omega arith) in
    let (rest, quiet) =
      taps-After cfg first ts (n + 1) (good && good_tap cfg first t) t.released_at (tapped g t) one
        (omega arith) k.1 (omega arith) in
    let count : n + length (t ∷ ts) ≡ n + 1 + length ts = omega arith in
    let split : (good && all_good cfg first (t ∷ ts))
        ≡ ((good && good_tap cfg first t) && all_good cfg first ts) =
      ground arith in
    (
      subst
          (λ k.
            After cfg first k (good && all_good cfg first (t ∷ ts)) (last_release at (t ∷ ts))
              (run g (events (t ∷ ts))).1)
          (sym count)
          (subst
            (λ b.
              After cfg first (n + 1 + length ts) b (last_release t.released_at ts)
                (run (tapped g t) (events ts)).1)
            (sym split) rest),
      (quiet_press, (quiet_release, quiet)),
    )

-- No press is in progress and no sequence has begun.
pub record IsIdle (g : GestureState) : Type 0 where
  pub is_up : g.pressed ≡ false
  pub not_armed : g.armed ≡ false
  pub not_spoiled : g.spoiled ≡ false
  pub no_press : g.presses ≡ 0

pub gesture_init-IsIdle : (cfg : GestureCfg) → IsIdle (gesture_init cfg)
unfolding gesture_init
gesture_init-IsIdle cfg = record {
  is_up = refl;
  not_armed = refl;
  not_spoiled = refl;
  no_press = refl;
}

idle-After : (g : GestureState) (first : ℕ) → IsIdle g → After g.cfg first 0 true 0 g
idle-After g first h = record {
  same_cfg = refl;
  is_up = h.is_up;
  not_armed = h.not_armed;
  counted = h.no_press;
  started = λ p. absurd (omega arith);
  judged = ground (arith, h.not_spoiled);
  ended_at = λ p. absurd (omega arith);
}

tick-After :
    (cfg : GestureCfg) (t : Tap) (ts : List Tap) (now : ℕ) (s : GestureState)
    → After cfg t.pressed_at
        (1 + length ts)
        (all_good cfg t.pressed_at (t ∷ ts))
        (last_release t.released_at ts)
        s
    → last_release t.released_at ts + cfg.quiet_ms ≤ now
    → ((gesture_tick s now).0 ≡ meaning cfg t ts)
      × IsIdle (gesture_tick s now).1
      × ((gesture_tick s now).1.cfg ≡ cfg)
unfolding gesture_tick
tick-After cfg t ts now s h q =
    let quiet : s.last_release + s.cfg.quiet_ms ≤ now =
      rw (h.same_cfg, h.ended_at (omega arith)) q in
    let some_press : 0 < s.presses = rw h.counted (omega arith) in
    let said : (gesture_tick s now).0 ≡ ended s.cfg (if s.spoiled then 0 else s.presses) =
      rw (h.is_up, lt→ltb 0 s.presses some_press, le→leb _ _ quiet) refl in
    (
      said
          ∙ rw (h.same_cfg, h.counted, h.judged)
              (told (
                all_good cfg t.pressed_at (t ∷ ts)
                && leb (1 + length ts) (max cfg.press_count cfg.identify_count))),
      record {
        is_up = ground (arith, h.is_up);
        not_armed = ground (arith, h.is_up);
        not_spoiled = ground (arith, h.is_up);
        no_press = ground (arith, h.is_up);
      },
      ground (arith, h.is_up, h.same_cfg),
    )
  where
    told :
        (b : Bool)
        → ended cfg (if not b then 0 else 1 + length ts)
          ≡ (if b then ended cfg (1 + length ts) else gesture_none)
    told true = refl
    told false = refl

-- Presses `t ∷ ts` that are no erase holds, fewer than 2^32, and then a tick at least `quiet_ms`
-- behind the last release: from an idle state the presses report nothing, the tick reports what
-- the sequence means, and the classifier is idle again with its configuration.
pub gesture_tick-run :
    (g : GestureState) (t : Tap) (ts : List Tap) (now : ℕ)
    → IsIdle g
    → All (NoHold g.cfg) (t ∷ ts)
    → length (t ∷ ts) < 2 ^ 32
    → last_release t.released_at ts + g.cfg.quiet_ms ≤ now
    → All (λ r. r ≡ gesture_none) (run g (events (t ∷ ts))).0
      × ((gesture_tick (run g (events (t ∷ ts))).1 now).0 ≡ meaning g.cfg t ts)
      × IsIdle (gesture_tick (run g (events (t ∷ ts))).1 now).1
      × ((gesture_tick (run g (events (t ∷ ts))).1 now).1.cfg ≡ g.cfg)
unfolding run feed tapped pressed
gesture_tick-run g t ts now idle k l q =
    let (one, quiet_press, quiet_release) =
      tap-After g.cfg t.pressed_at 0 true 0 g t (idle-After g t.pressed_at idle) (λ z. refl) k.0
        (omega arith) in
    let (all, quiet) =
      taps-After g.cfg t.pressed_at ts 1 (good_tap g.cfg t.pressed_at t) t.released_at (tapped g t)
        one (omega arith) k.1 (omega arith) in
    let (said, idle', cfg') = tick-After g.cfg t ts now (run (tapped g t) (events ts)).1 all q in
    ((quiet_press, (quiet_release, quiet)), said, idle', cfg')
