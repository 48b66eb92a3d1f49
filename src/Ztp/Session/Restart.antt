-- ===== src/Ztp/Session/Restart.antt =====
-- Why the provisioner restarts into the application, and what a response must say to be applied.
use microcontroller_devices.Prelude.{ℕ, ◌+◌, ◌*◌}
use microcontroller_devices.Prelude.{leb, ◌==◌, if◌then◌else◌}
use microcontroller_devices.Prelude.{◌≡◌, ◌≢◌, refl, ◌⊎◌, inl, inr}
use microcontroller_devices.Prelude.{Bool, true, false, ◌&&◌, ◌||◌, not}
use microcontroller_devices.Prelude.{Option, none, some, List, [], ◌∷◌}
use microcontroller_devices.Prelude.{length}
use microcontroller_devices.Ztp.Errors.{Errno, eproto, eagain, enotsup, Rc, is_ok}
use microcontroller_devices.Ztp.Manifest.{Response, ztp_response_parse}
use microcontroller_devices.Ztp.Apply.Staging.{Platform, Effect, Staged}
use microcontroller_devices.Ztp.Frame.{
  Msg, msg_kick, msg_response, msg_overflow, msg_button, release_rx, Clock,
}
use microcontroller_devices.Ztp.Session.{
  ZtpConfig, Session, Answers, adv_start, adv_stop, is_accepted, synced, st_relaying,
  apply_response, handle_response, send_envelope, handle_kick, responded, on_message, on_timeout,
  take_message, turn,
}

module _ (p : Platform) (cfg : ZtpConfig) where
  -- A turn that ends the provisioner: the window is over and there is a network to return to, or
  -- the response was applied.
  pub data Restarts (a : Answers) (s : Session) : Type 0 where
    expired :
        s.rx.queue ≡ []
        → s.idle ≡ false
        → leb s.deadline a.uptime ≡ true
        → (cfg.return_on_expiry || a.creds_resolve) ≡ true
        → Restarts a s
    provisioned :
        (q : List Msg)
        → s.rx.queue ≡ msg_response ∷ q
        → is_ok (handle_response p cfg s.rx.rx_buf a.uptime s.clock s.staged).0 ≡ true
        → Restarts a s

  on_timeout-Restarts :
      (a : Answers) (s : Session)
      → s.rx.queue ≡ []
      → s.rebooting ≡ false
      → (on_timeout p cfg a s).rebooting ≡ true
      → Restarts a s
  unfolding on_timeout adv_stop
  on_timeout-Restarts a s empty before after =
      cases s.idle (leb s.deadline a.uptime) (cfg.return_on_expiry || a.creds_resolve) refl refl
        refl after
    where
      running : {P : Type 0} → s.rebooting ≡ true → P
      running e = cc

      cases :
          (i d c : Bool)
          → s.idle ≡ i
          → leb s.deadline a.uptime ≡ d
          → (cfg.return_on_expiry || a.creds_resolve) ≡ c
          → (let s' : Session =
                if not i && d
                then (if c
                    then record s { rebooting = true }
                    else record (adv_stop s) { idle = true })
                else s in
              s'.rebooting ≡ true)
          → Restarts a s
      cases false true true e f g h = expired empty e f g
      cases false true false e f g h = running h
      cases false false c e f g h = running h
      cases true d c e f g h = running h

  envelope_keeps :
      (o : Option (List ℕ)) (a : Answers) (s : Session)
      → (send_envelope p cfg o a s).rebooting ≡ s.rebooting
  envelope_keeps none a s = refl
  envelope_keeps (some e) a s = refl

  start_keeps : (starts : Bool) (s : Session) → (adv_start starts s).rebooting ≡ s.rebooting
  unfolding adv_start
  start_keeps starts s = cases (not s.adv_wanted || s.adv_running || s.linked)
    where
      cases :
          (b : Bool)
          → (let s' : Session = if b then s else record s { adv_running = starts } in
              s'.rebooting ≡ s.rebooting)
      cases true = refl
      cases false = refl

  kick_keeps : (a : Answers) (s : Session) → (on_message p cfg msg_kick a s).rebooting ≡ s.rebooting
  unfolding on_message handle_kick
  kick_keeps a s = cases s.idle
    where
      cases :
          (b : Bool)
          → (let s' : Session =
                if b then record s { rx = release_rx s.rx } else handle_kick p cfg a s in
              s'.rebooting ≡ s.rebooting)
      cases true = refl
      cases false =
          envelope_keeps a.envelope a (record s { rx = release_rx s.rx; status = st_relaying })

  button_keeps :
      (a : Answers) (s : Session) → (on_message p cfg msg_button a s).rebooting ≡ s.rebooting
  unfolding on_message
  button_keeps a s = cases s.idle
    where
      again : Session
      again = record s {
        idle = false;
        deadline = a.uptime + cfg.window_s * 1000;
        adv_wanted = true;
      }

      cases :
          (b : Bool)
          → (let s' : Session = if b then adv_start a.adv_starts again else s in
              s'.rebooting ≡ s.rebooting)
      cases true = start_keeps a.adv_starts again
      cases false = refl

  overflow_keeps :
      (a : Answers) (s : Session) → (on_message p cfg msg_overflow a s).rebooting ≡ s.rebooting
  unfolding on_message
  overflow_keeps a s = refl

  responded_restarts :
      (a : Answers) (s : Session) (r : Rc × Clock × Staged × List Effect)
      → s.rebooting ≡ false
      → (responded p cfg a s r).rebooting ≡ true
      → is_ok r.0 ≡ true
  responded_restarts a s (none, clock, staged, fx) before after = refl
  responded_restarts a s (some e, clock, staged, fx) before after = cc

  on_message-Restarts :
      (m : Msg) (q : List Msg) (a : Answers) (s : Session)
      → s.rx.queue ≡ m ∷ q
      → s.rebooting ≡ false
      → (on_message p cfg m a (record s { rx = record s.rx { queue = q } })).rebooting ≡ true
      → Restarts a s
  unfolding on_message
  on_message-Restarts m q a s e before after = cases m e after
    where
      taken : Session
      taken = record s { rx = record s.rx { queue = q } }

      kept : {P : Type 0} {b : Bool} → b ≡ true → b ≡ s.rebooting → P
      kept h k = cc

      cases :
          (m : Msg)
          → s.rx.queue ≡ m ∷ q
          → (on_message p cfg m a taken).rebooting ≡ true
          → Restarts a s
      cases msg_kick e h = kept h (kick_keeps a taken)
      cases msg_response e h = provisioned q e (
          responded_restarts a taken (handle_response p cfg s.rx.rx_buf a.uptime s.clock s.staged)
            before h)
      cases msg_overflow e h = kept h (overflow_keeps a taken)
      cases msg_button e h = kept h (button_keeps a taken)

  -- A turn of the loop that restarts into the application found the queue empty, the session not
  -- idle, the deadline passed and a network to return to, or it took a response off the queue that
  -- was applied with the code 0. No restart was under way before.
  pub turn-Restarts :
      (a : Answers) (s : Session)
      → s.rebooting ≡ false
      → (turn p cfg a s).rebooting ≡ true
      → Restarts a s
  unfolding turn
  turn-Restarts a s before after = cases s.rx.queue refl after
    where
      cases :
          (q : List Msg)
          → s.rx.queue ≡ q
          → (take_message p cfg q a s).rebooting ≡ true
          → Restarts a s
      cases [] e h = on_timeout-Restarts a s e before h
      cases (m ∷ q) e h = on_message-Restarts m q a s e before h

  -- A code of 0 or an effect.
  abbrev pub Applies : Rc × Staged × List Effect → Type 0
  Applies r = (is_ok r.0 ≡ true) ⊎ (r.2 ≢ [])

  accepted_first :
      (r : Response) (s : Staged)
      → Applies (apply_response p cfg r s)
      → (is_accepted r.status ≡ true) × (cfg.pinned ≡ false)
  unfolding apply_response
  accepted_first r s = cases (is_accepted r.status) (length r.manifest == 0) cfg.pinned _
    where
      refused : {P : Type 0} (e : Errno) → Applies (some e, s, []) → P
      refused e (inl h) = cc
      refused e (inr h) = absurd (h refl)

      cases :
          (b d c : Bool) (w : Rc × Staged × List Effect)
          → Applies (
              if not b
              then (some eagain, s, [])
              else if d
              then (some eproto, s, [])
              else if c
              then (some enotsup, s, [])
              else w)
          → (b ≡ true) × (c ≡ false)
      cases false d c w h = refused eagain h
      cases true true c w h = refused eproto h
      cases true false true w h = refused enotsup h
      cases true false false w h = (refl, refl)

  -- The same of what `handle_response` returns.
  abbrev pub Applied : Rc × Clock × Staged × List Effect → Type 0
  Applied r = (is_ok r.0 ≡ true) ⊎ (r.3 ≢ [])

  -- A response that `handle_response` applies, with the code 0 or any commit, parses with protocol
  -- version 1, has the status accepted, and no server key is pinned.
  pub handle_response_accepted :
      (buf : List ℕ) (uptime : ℕ) (clock : Clock) (s : Staged)
      → Applied (handle_response p cfg buf uptime clock s)
      → ((ztp_response_parse buf).0 ≡ true)
        × (is_accepted (ztp_response_parse buf).1.status ≡ true)
        × (cfg.pinned ≡ false)
  unfolding handle_response
  handle_response_accepted buf uptime clock s =
      let r = (ztp_response_parse buf).1 in
      cases (ztp_response_parse buf).0 (apply_response p cfg r s)
        (synced r.server_time uptime clock) (accepted_first r s)
    where
      cases :
          (b : Bool) (o : Rc × Staged × List Effect) (t : Clock) {P Q : Type 0}
          → (Applies o → P × Q)
          → Applied (if b then (o.0, t, o.1, o.2) else (some eproto, clock, s, []))
          → (b ≡ true) × P × Q
      cases true o t f h = let (x, y) = f h in (refl, x, y)
      cases false o t f (inl h) = cc
      cases false o t f (inr h) = absurd (h refl)
