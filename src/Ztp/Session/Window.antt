-- ===== src/Ztp/Session/Window.antt =====
-- The window, the advertising and the restart.
use microcontroller_devices.Prelude.{ℕ, ◌+◌, ◌*◌}
use microcontroller_devices.Prelude.{leb, if◌then◌else◌}
use microcontroller_devices.Prelude.{◌≡◌, refl}
use microcontroller_devices.Prelude.{Bool, true, false, ◌&&◌, ◌||◌, not}
use microcontroller_devices.Prelude.{Option, none, some, List, [], ◌∷◌}
use microcontroller_devices.Ztp.Errors.{Rc}
use microcontroller_devices.Ztp.Apply.Staging.{Platform, Effect, Staged}
use microcontroller_devices.Ztp.Frame.{
  Msg, msg_kick, msg_response, msg_overflow, msg_button, release_rx, Clock,
}
use microcontroller_devices.Ztp.Session.{
  ZtpConfig, Session, st_relaying, Answers, adv_start, adv_stop, on_connected, on_disconnected,
  handle_response, send_envelope, handle_kick, responded, on_message, on_timeout, take_message,
  turn, Event, turned, wrote, synced_time, connected, disconnected, recycled, pressed, step, run,
}

-- Idle, wanted and running advertising, and a link that go together.
pub record Quiet (idle wanted running linked : Bool) : Type 0 where
  pub idle_off : idle ≡ true → wanted ≡ false
  pub running_wanted : running ≡ true → wanted ≡ true
  pub linked_off : linked ≡ true → running ≡ false

-- Nothing is advertised while the session is idle or a relay is connected.
abbrev pub IsQuiet : Session → Type 0
IsQuiet s = Quiet s.idle s.adv_wanted s.adv_running s.linked

adv_start-IsQuiet : (starts : Bool) (s : Session) → IsQuiet s → IsQuiet (adv_start starts s)
unfolding adv_start
adv_start-IsQuiet starts s h = cases s.adv_wanted s.adv_running s.linked refl refl refl
  where
    unlinked : s.linked ≡ true → s.linked ≡ false → ⊥
    unlinked e c = cc

    cases :
        (w r l : Bool)
        → s.adv_wanted ≡ w
        → s.adv_running ≡ r
        → s.linked ≡ l
        → IsQuiet (if not w || r || l then s else record s { adv_running = starts })
    cases false r l a b c = h
    cases true true l a b c = h
    cases true false true a b c = h
    cases true false false a b c = record {
      idle_off = h.idle_off;
      running_wanted = λ _. a;
      linked_off = λ e. absurd (unlinked e c);
    }

adv_stop-IsQuiet : (s : Session) → IsQuiet (adv_stop s)
unfolding adv_stop
adv_stop-IsQuiet s = record {
  idle_off = λ _. refl;
  running_wanted = λ e. cc;
  linked_off = λ _. refl;
}

module _ (p : Platform) (cfg : ZtpConfig) where
  send_envelope-IsQuiet :
      (o : Option (List ℕ)) (a : Answers) (s : Session)
      → IsQuiet s
      → IsQuiet (send_envelope p cfg o a s)
  send_envelope-IsQuiet none a s h = h
  send_envelope-IsQuiet (some e) a s h = h

  responded-IsQuiet :
      (a : Answers) (s : Session) (r : Rc × Clock × Staged × List Effect)
      → IsQuiet s
      → IsQuiet (responded p cfg a s r)
  responded-IsQuiet a s (some e, clock, staged, fx) h = h
  responded-IsQuiet a s (none, clock, staged, fx) h = adv_stop-IsQuiet _

  restarted-IsQuiet :
      (s : Session) (deadline : ℕ)
      → IsQuiet s
      → IsQuiet (record s { idle = false; deadline = deadline; adv_wanted = true })
  restarted-IsQuiet s deadline h = record {
    idle_off = λ e. cc;
    running_wanted = λ _. refl;
    linked_off = h.linked_off;
  }

  on_message-IsQuiet :
      (m : Msg) (a : Answers) (s : Session) → IsQuiet s → IsQuiet (on_message p cfg m a s)
  unfolding on_message handle_kick
  on_message-IsQuiet msg_kick a s h = cases s.idle
    where
      cases :
          (b : Bool)
          → IsQuiet (if b then record s { rx = release_rx s.rx } else handle_kick p cfg a s)
      cases true = h
      cases false =
          send_envelope-IsQuiet a.envelope a
            (record s { rx = release_rx s.rx; status = st_relaying }) h
  on_message-IsQuiet msg_overflow a s h = h
  on_message-IsQuiet msg_response a s h =
      responded-IsQuiet a s (handle_response p cfg s.rx.rx_buf a.uptime s.clock s.staged) h
  on_message-IsQuiet msg_button a s h = cases s.idle
    where
      again : Session
      again = record s {
        idle = false;
        deadline = a.uptime + cfg.window_s * 1000;
        adv_wanted = true;
      }

      cases : (b : Bool) → IsQuiet (if b then adv_start a.adv_starts again else s)
      cases true =
          adv_start-IsQuiet a.adv_starts again
            (restarted-IsQuiet s (a.uptime + cfg.window_s * 1000) h)
      cases false = h

  on_timeout-IsQuiet : (a : Answers) (s : Session) → IsQuiet s → IsQuiet (on_timeout p cfg a s)
  unfolding on_timeout adv_stop
  on_timeout-IsQuiet a s h =
      cases (not s.idle && leb s.deadline a.uptime) (cfg.return_on_expiry || a.creds_resolve)
    where
      cases :
          (b c : Bool)
          → IsQuiet (
              if b
              then (if c
                  then record s { rebooting = true }
                  else record (adv_stop s) { idle = true })
              else s)
      cases true true = h
      cases true false = record {
        idle_off = λ _. refl;
        running_wanted = λ e. cc;
        linked_off = λ _. refl;
      }
      cases false c = h

  turn-IsQuiet : (a : Answers) (s : Session) → IsQuiet s → IsQuiet (turn p cfg a s)
  unfolding turn
  turn-IsQuiet a s h = cases s.rx.queue
    where
      cases : (q : List Msg) → IsQuiet (take_message p cfg q a s)
      cases [] = on_timeout-IsQuiet a s h
      cases (m ∷ q) = on_message-IsQuiet m a (record s { rx = record s.rx { queue = q } }) h

  step-IsQuiet : (e : Event p cfg) (s : Session) → IsQuiet s → IsQuiet (step p cfg e s)
  unfolding step on_connected on_disconnected
  step-IsQuiet (turned a) s h = turn-IsQuiet a s h
  step-IsQuiet (wrote buf offset prepare) s h = h
  step-IsQuiet (synced_time uptime buf offset) s h = h
  step-IsQuiet connected s h = record {
    idle_off = h.idle_off;
    running_wanted = λ e. cc;
    linked_off = λ _. refl;
  }
  step-IsQuiet disconnected s h = record {
    idle_off = h.idle_off;
    running_wanted = h.running_wanted;
    linked_off = λ e. cc;
  }
  step-IsQuiet (recycled starts) s h = adv_start-IsQuiet starts s h
  step-IsQuiet pressed s h = h

  -- Whatever events come in whatever order, the session never advertises while it is idle or a
  -- relay is connected, and advertises only while that is wanted, if this holds at the start.
  pub run-IsQuiet : (es : List (Event p cfg)) (s : Session) → IsQuiet s → IsQuiet (run p cfg es s)
  run-IsQuiet [] s h = h
  run-IsQuiet (e ∷ es) s h = run-IsQuiet es (step p cfg e s) (step-IsQuiet e s h)
