-- ===== src/Ztp/Session/Stall.antt =====
-- The session behind a message whose event found the queue full.
use microcontroller_devices.Prelude.{ℕ, ◌+◌, ◌*◌, ◌≤◌}
use microcontroller_devices.Prelude.{ltb, leb, if◌then◌else◌}
use microcontroller_devices.Prelude.{◌≡◌, refl, sym, ap, ◌∙◌}
use microcontroller_devices.Prelude.{Bool, true, false, ◌&&◌, ◌||◌, not}
use microcontroller_devices.Prelude.{List, [], ◌∷◌, ◌++◌}
use microcontroller_devices.Prelude.{length, All, All-append}
use mathlib.Core.Path.{subst}
use microcontroller_devices.Ztp.Apply.Staging.{Platform, Effect}
use microcontroller_devices.Ztp.Frame.{
  Msg, msg_button, Rx, post, put_be16, write_request, rx_disconnected,
}
use microcontroller_devices.Ztp.Frame.Reassembly.{busy_ignores, write_end_lost}
use microcontroller_devices.Ztp.Session.{
  ZtpConfig, Session, Answers, adv_start, adv_stop, on_connected, on_disconnected, on_message,
  on_timeout, take_message, turn, Event, turned, wrote, synced_time, connected, disconnected,
  recycled, pressed, step, run,
}

-- Nothing but presses of the button is queued.
abbrev pub Presses : List Msg → Type 0
Presses q = All (λ m. m ≡ msg_button) q

-- The receiver is busy with nothing queued that would release it, and since then nothing was sent
-- and nothing committed.
pub record Stall (sent : List (List ℕ)) (effects : List Effect) (rx : Rx) (out : List (List ℕ))
    (fx : List Effect) : Type 0 where
  pub busy : rx.rx_busy ≡ true
  pub presses : Presses rx.queue
  pub sent_is : out ≡ sent
  pub effects_is : fx ≡ effects

abbrev pub IsStalled : List (List ℕ) → List Effect → Session → Type 0
IsStalled sent effects s = Stall sent effects s.rx s.sent s.effects

abbrev with_rx : Session → Rx → Session
with_rx s r = record s { rx = r }

post-Presses : (r : Rx) → Presses r.queue → Presses (post msg_button r).queue
unfolding post
post-Presses r h = cases (ltb (length r.queue) 4)
  where
    cases :
        (b : Bool)
        → Presses (if b then record r { queue = r.queue ++ (msg_button ∷ []) } else r).queue
    cases true = All-append (λ m. m ≡ msg_button) r.queue (msg_button ∷ []) h (refl, tt)
    cases false = h

post_busy : (m : Msg) (r : Rx) → (post m r).rx_busy ≡ r.rx_busy
unfolding post
post_busy m r = cases (ltb (length r.queue) 4)
  where
    cases :
        (b : Bool) → (if b then record r { queue = r.queue ++ (m ∷ []) } else r).rx_busy ≡ r.rx_busy
    cases true = refl
    cases false = refl

disconnected_busy : (r : Rx) → r.rx_busy ≡ true → rx_disconnected r ≡ r
unfolding rx_disconnected
disconnected_busy r h = rw h

module _ (p : Platform) (cfg : ZtpConfig) (sent : List (List ℕ)) (effects : List Effect) where
  abbrev Stalled : Session → Type 0
  Stalled s = IsStalled sent effects s

  adv_start-IsStalled : (starts : Bool) (s : Session) → Stalled s → Stalled (adv_start starts s)
  unfolding adv_start
  adv_start-IsStalled starts s h = cases (not s.adv_wanted || s.adv_running || s.linked)
    where
      cases : (b : Bool) → Stalled (if b then s else record s { adv_running = starts })
      cases true = h
      cases false = h

  -- The presses that are left behind one that is taken.
  on_button-IsStalled :
      (a : Answers) (s : Session) → Stalled s → Stalled (on_message p cfg msg_button a s)
  unfolding on_message
  on_button-IsStalled a s h = cases s.idle
    where
      again : Session
      again = record s {
        idle = false;
        deadline = a.uptime + cfg.window_s * 1000;
        adv_wanted = true;
      }

      cases : (b : Bool) → Stalled (if b then adv_start a.adv_starts again else s)
      cases true = adv_start-IsStalled a.adv_starts again h
      cases false = h

  on_timeout-IsStalled : (a : Answers) (s : Session) → Stalled s → Stalled (on_timeout p cfg a s)
  unfolding on_timeout adv_stop
  on_timeout-IsStalled a s h =
      cases (not s.idle && leb s.deadline a.uptime) (cfg.return_on_expiry || a.creds_resolve)
    where
      cases :
          (b c : Bool)
          → Stalled (
              if b
              then (if c
                  then record s { rebooting = true }
                  else record (adv_stop s) { idle = true })
              else s)
      cases true true = h
      cases true false = h
      cases false c = h

  turn-IsStalled : (a : Answers) (s : Session) → Stalled s → Stalled (turn p cfg a s)
  unfolding turn
  turn-IsStalled a s h = cases s.rx.queue h.presses
    where
      cases : (q : List Msg) → Presses q → Stalled (take_message p cfg q a s)
      cases [] k = on_timeout-IsStalled a s h
      cases (m ∷ q) (e, k) =
          let s' = with_rx s (record s.rx { queue = q }) in
          subst (λ m. Stalled (on_message p cfg m a s')) (sym e)
            (on_button-IsStalled a s' (record {
              busy = h.busy;
              presses = k;
              sent_is = h.sent_is;
              effects_is = h.effects_is;
            }))

  wrote-IsStalled :
      (buf : List ℕ) (offset : ℕ) (prepare : Bool) (s : Session)
      → Stalled s
      → Stalled (with_rx s (write_request cfg.rx_bytes s.rx buf offset prepare).1)
  wrote-IsStalled buf offset prepare s h =
      subst (λ r. Stalled (with_rx s r))
        (sym (busy_ignores cfg.rx_bytes s.rx buf offset prepare h.busy)) h

  step-IsStalled : (e : Event p cfg) (s : Session) → Stalled s → Stalled (step p cfg e s)
  unfolding step on_connected on_disconnected
  step-IsStalled (turned a) s h = turn-IsStalled a s h
  step-IsStalled (wrote buf offset prepare) s h = wrote-IsStalled buf offset prepare s h
  step-IsStalled (synced_time uptime buf offset) s h = h
  step-IsStalled connected s h = h
  step-IsStalled disconnected s h = record {
    busy = ap (λ (r : Rx). r.rx_busy) (disconnected_busy s.rx h.busy) ∙ h.busy;
    presses = subst (λ (r : Rx). Presses r.queue) (sym (disconnected_busy s.rx h.busy)) h.presses;
    sent_is = h.sent_is;
    effects_is = h.effects_is;
  }
  step-IsStalled (recycled starts) s h = adv_start-IsStalled starts s h
  step-IsStalled pressed s h = record {
    busy = post_busy msg_button s.rx ∙ h.busy;
    presses = post-Presses s.rx h.presses;
    sent_is = h.sent_is;
    effects_is = h.effects_is;
  }

  run-IsStalled : (es : List (Event p cfg)) (s : Session) → Stalled s → Stalled (run p cfg es s)
  run-IsStalled [] s h = h
  run-IsStalled (e ∷ es) s h = run-IsStalled es (step p cfg e s) (step-IsStalled e s h)

-- A terminator that reaches an idle receiver while four button presses, and nothing else, are
-- queued, whatever message it ends, loses its event for good: whatever follows (turns of the
-- loop, writes, presses, disconnects), the receiver stays busy, only presses are queued, and
-- nothing more is sent or committed.
pub full_queue_stalls :
    (p : Platform) (cfg : ZtpConfig) (s : Session) (es : List (Event p cfg))
    → s.rx.rx_busy ≡ false
    → 4 ≤ length s.rx.queue
    → Presses s.rx.queue
    → IsStalled s.sent s.effects (run p cfg (wrote (put_be16 0) 0 false ∷ es) s)
unfolding step
full_queue_stalls p cfg s es idle full presses =
    run-IsStalled p cfg s.sent s.effects es
      (with_rx s (write_request cfg.rx_bytes s.rx (put_be16 0) 0 false).1)
      (subst (λ r. IsStalled s.sent s.effects (with_rx s r))
        (sym (write_end_lost cfg.rx_bytes s.rx idle full))
        (record { busy = refl; presses = presses; sent_is = refl; effects_is = refl }))
