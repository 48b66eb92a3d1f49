-- ===== src/Device/Liveness/Feeding.antt =====
-- `app_liveness_feed`, run for a context that makes progress.
use microcontroller_devices.Prelude.{ℕ, ◌+◌, ◌≤◌, ◌<◌}
use microcontroller_devices.Prelude.{ltb, leb, if◌then◌else◌, ltb→lt}
use microcontroller_devices.Prelude.{◌≡◌, refl, sym, ap, ◌∙◌, arith}
use microcontroller_devices.Prelude.{Bool, true, false, ◌||◌, not}
use microcontroller_devices.Prelude.{none, some, List, [], ◌∷◌}
use microcontroller_devices.Prelude.{length}
use microcontroller_devices.Prelude.{get_or, set, length-set}
use mathlib.Core.Path.{subst}
use microcontroller_devices.Prelude.{get_or-set_self}
use microcontroller_devices.Device.Liveness.{Liveness, feed_channel, app_liveness_feed}

-- The time of the last feed of the watchdog channel behind a call at `t`.
abbrev pub fed_behind : (t fed : ℕ) → Bool → ℕ
fed_behind t fed true = t
fed_behind t fed false = fed

-- The watchdog's side: `fed` is the time at which the channel was last fed, by the calls that did
-- feed it. At each call the channel has not run out.
abbrev pub Alive : Bool → ℕ → ℕ → ℕ → Liveness → List ℕ → Type 0
Alive adds timeout ctx fed l [] = Unit
Alive adds timeout ctx fed l (t ∷ ts) =
    (t < fed + timeout)
    × Alive adds timeout ctx (fed_behind t fed (app_liveness_feed adds ctx t l).1)
        (app_liveness_feed adds ctx t l).0 ts

-- Each call comes at most `gap` behind the one before it.
abbrev pub Prompt : ℕ → ℕ → List ℕ → Type 0
Prompt gap before [] = Unit
Prompt gap before (t ∷ ts) = (before ≤ t) × (t ≤ before + gap) × Prompt gap t ts

-- The channel is watched, and was fed at `fed`, less than a second before the last call.
pub record IsFed (ctx fed before : ℕ) (l : Liveness) : Type 0 where
  pub ready : l.ready ≡ true
  pub watched : ctx < length l.last_feed
  pub last_is : get_or l.last_feed ctx none ≡ some fed
  pub recent : before < fed + 1000
  pub past : fed ≤ before

feed_watched :
    (adds : Bool) (ctx fed before t : ℕ) (l : Liveness)
    → IsFed ctx fed before l
    → app_liveness_feed adds ctx t l ≡ feed_channel adds ctx t l (some fed)
unfolding app_liveness_feed
feed_watched adds ctx fed before t l h =
    pick (not l.ready || leb (length l.last_feed) ctx)
      (open_gate l.ready (length l.last_feed) h.ready h.watched)
    ∙ ap (feed_channel adds ctx t l) h.last_is
  where
    open_gate : (r : Bool) (n : ℕ) → r ≡ true → ctx < n → (not r || leb n ctx) ≡ false
    open_gate true n e h = ground arith
    open_gate false n e h = cc

    pick :
        (b : Bool)
        → b ≡ false
        → (if b then (l, false) else feed_channel adds ctx t l (get_or l.last_feed ctx none))
          ≡ feed_channel adds ctx t l (get_or l.last_feed ctx none)
    pick false e = refl
    pick true e = cc

abbrev FedBehind : (ctx fed t : ℕ) → Liveness × Bool → Type 0
FedBehind ctx fed t r = IsFed ctx (fed_behind t fed r.1) t r.0

feed-IsFed :
    (adds : Bool) (ctx fed before t : ℕ) (l : Liveness)
    → IsFed ctx fed before l
    → before ≤ t
    → FedBehind ctx fed t (app_liveness_feed adds ctx t l)
feed-IsFed adds ctx fed before t l h k =
    subst (FedBehind ctx fed t) (sym (feed_watched adds ctx fed before t l h))
      (cases (ltb t (fed + 1000)) refl)
  where
    cases :
        (b : Bool)
        → ltb t (fed + 1000) ≡ b
        → FedBehind ctx fed t (
            if b then (l, false) else (record l { last_feed = set l.last_feed ctx (some t) }, true))
    cases true e = record {
      ready = h.ready;
      watched = h.watched;
      last_is = h.last_is;
      recent = ltb→lt t (fed + 1000) e;
      past = omega (arith, h.past, k);
    }
    cases false e = record {
      ready = h.ready;
      watched = omega (arith, length-set l.last_feed ctx (some t), h.watched);
      last_is = get_or-set_self l.last_feed ctx (some t) none h.watched;
      recent = omega arith;
      past = omega arith;
    }

-- A context that calls `app_liveness_feed` again and again, each time at most `gap` behind the
-- call before, keeps its watchdog channel alive, although most calls do not feed it: at every
-- call, less than the timeout has passed since the last call that did feed the channel. The
-- timeout is at least `gap` and a second, the watchdog is ready, and the channel was fed at the
-- time noted for it, less than a second before the first of these calls.
pub app_liveness_feed-Alive :
    (adds : Bool) (timeout gap ctx fed before : ℕ) (l : Liveness) (ts : List ℕ)
    → gap + 1000 ≤ timeout
    → IsFed ctx fed before l
    → Prompt gap before ts
    → Alive adds timeout ctx fed l ts
app_liveness_feed-Alive adds timeout gap ctx fed before l [] h is prompt = tt
app_liveness_feed-Alive adds timeout gap ctx fed before l (t ∷ ts) h is (a, b, rest) = (
  omega (arith, is.recent),
  app_liveness_feed-Alive adds timeout gap ctx (fed_behind t fed (app_liveness_feed adds ctx t l).1)
      t (app_liveness_feed adds ctx t l).0 ts h (feed-IsFed adds ctx fed before t l is a) rest,
)
