-- ===== src/Snmp/Trap/Links.antt =====
-- What the watcher records of the links: `watch_link` and `watch_links`.
use microcontroller_devices.Prelude.{ℕ, zero, suc, ◌+◌, ◌≤◌, ◌<◌}
use microcontroller_devices.Prelude.{◌==◌, if◌then◌else◌}
use microcontroller_devices.Prelude.{◌≡◌, ◌≢◌, refl, ap, ◌∙◌, arith, ◌⊎◌, inl, inr}
use microcontroller_devices.Prelude.{Bool, true, false, ◌||◌, not, Bool-cases}
use microcontroller_devices.Prelude.{◌∷◌}
use microcontroller_devices.Prelude.{length}
use microcontroller_devices.Prelude.{get_or, set, length-set}
use microcontroller_devices.Device.SimSwitch.{
  SimSwitch, SimIfStatus, up, down, sim_switch_if_oper_status,
}
use mathlib.Core.Path.{subst}
use microcontroller_devices.Prelude.{get_or-set_self, get_or-set_ne}
use microcontroller_devices.Snmp.Ber.Encoder.{BerEnc, ber_enc_init, ber_enc_length}
use microcontroller_devices.Snmp.Trap.{
  Notification, Trap, TrapEnv, send_trap, link_notification, set_oper, same_status, next_id, packet,
  encode_trap, notification_oid, trap_buf_size, watch_link, watch_links,
}

same_status-true : (p : TrapEnv) (a b : SimIfStatus) → same_status p a b ≡ true → b ≡ a
same_status-true p up up h = refl
same_status-true p down down h = refl
same_status-true p up down h = cc
same_status-true p down up h = cc

same_status_refl : (p : TrapEnv) (a : SimIfStatus) → same_status p a a ≡ true
same_status_refl p up = refl
same_status_refl p down = refl

module _ (env : TrapEnv) where
  send_keeps_oper :
      (n : Notification) (k : ℕ) (t : Trap) → (send_trap env n k t).last_oper ≡ t.last_oper
  unfolding send_trap
  send_keeps_oper n k t = cases (not t.socket || not t.mgr_resolved)
    where
      id : ℕ
      id = next_id t.trap_request_id

      e : BerEnc
      e =
          encode_trap (ber_enc_init env.buf trap_buf_size) env.community env.ticks id
            (notification_oid n) k

      after : Bool → Bool → Trap
      after a b =
          if a
          then record t { trap_request_id = id }
          else if b
          then record t { trap_request_id = id; sent = (n, k, packet env e) ∷ t.sent }
          else record t { trap_request_id = id; mgr_resolved = false }

      kept : (a b : Bool) → (after a b).last_oper ≡ t.last_oper
      kept true b = refl
      kept false true = refl
      kept false false = refl

      cases :
          (b : Bool)
          → (let t' : Trap = if b then t else after (ber_enc_length e == 0) (env.delivers id) in
              t'.last_oper ≡ t.last_oper)
      cases true = refl
      cases false = kept (ber_enc_length e == 0) (env.delivers id)

  -- What a turn does to the record of one interface.
  link_oper :
      (i : ℕ) (now : SimIfStatus) (t : Trap)
      → ((watch_link env i now t).last_oper ≡ set t.last_oper i now)
        ⊎ (((watch_link env i now t).last_oper ≡ t.last_oper) × (get_or t.last_oper i down ≡ now))
  unfolding watch_link
  link_oper i now t = elim (Bool-cases (same_status env now (get_or t.last_oper i down))) [
    | inl h ↦ inr (rw h, same_status-true env now (get_or t.last_oper i down) h)
    | inr h ↦
        inl (rw h (send_keeps_oper (link_notification env now) (suc i) (set_oper env t i now)))
  ]

  link_here :
      (i : ℕ) (now : SimIfStatus) (t : Trap)
      → i < length t.last_oper
      → get_or (watch_link env i now t).last_oper i down ≡ now
  link_here i now t h = elim (link_oper i now t) [
    | inl e ↦ ap (λ l. get_or l i down) e ∙ get_or-set_self t.last_oper i now down h
    | inr (e, k) ↦ ap (λ l. get_or l i down) e ∙ k
  ]

  link_elsewhere :
      (i j : ℕ) (now : SimIfStatus) (t : Trap)
      → i ≢ j
      → get_or (watch_link env i now t).last_oper j down ≡ get_or t.last_oper j down
  link_elsewhere i j now t h = elim (link_oper i now t) [
    | inl e ↦ ap (λ l. get_or l j down) e ∙ get_or-set_ne t.last_oper i j now down h
    | inr (e, k) ↦ ap (λ l. get_or l j down) e
  ]

  link_length :
      (i : ℕ) (now : SimIfStatus) (t : Trap)
      → length (watch_link env i now t).last_oper ≡ length t.last_oper
  link_length i now t = elim (link_oper i now t) [
    | inl e ↦ ap length e ∙ length-set t.last_oper i now
    | inr (e, k) ↦ ap length e
  ]

  -- Interfaces before `i` are not touched.
  links_before :
      (s : SimSwitch) (n i j : ℕ) (t : Trap)
      → j < i
      → get_or (watch_links env s n i t).last_oper j down ≡ get_or t.last_oper j down
  unfolding watch_links
  links_before s zero i j t h = refl
  links_before s (suc n) i j t h =
      links_before s n (suc i) j (watch_link env i (sim_switch_if_oper_status s i) t) (omega arith)
      ∙ link_elsewhere i j (sim_switch_if_oper_status s i) t (λ e. omega (arith, e))

  -- Those from `i` on are recorded.
  pub links_record :
      (s : SimSwitch) (n i j : ℕ) (t : Trap)
      → i ≤ j
      → j < i + n
      → i + n ≤ length t.last_oper
      → get_or (watch_links env s n i t).last_oper j down ≡ sim_switch_if_oper_status s j
  unfolding watch_links
  links_record s zero i j t h k l = absurd (omega arith)
  links_record s (suc n) i j t h k l =
      let now = sim_switch_if_oper_status s i in
      let t' = watch_link env i now t in
      elim (Bool-cases (i == j)) [
        | inl e ↦ here i j t n e l
        | inr e ↦
            links_record s n (suc i) j t' (later i j h e) (omega arith)
              (omega (arith, link_length i now t))
      ]
    where
      later : (i j : ℕ) → i ≤ j → (i == j) ≡ false → suc i ≤ j
      later i j h e = ground arith

      equal : (i j : ℕ) → (i == j) ≡ true → i ≡ j
      equal i j e = ground arith

      here :
          (i j : ℕ) (t : Trap) (n : ℕ)
          → (i == j) ≡ true
          → i + suc n ≤ length t.last_oper
          → get_or
              (watch_links env s n
                (suc i)
                (watch_link env i (sim_switch_if_oper_status s i) t)).last_oper
              j
              down
            ≡ sim_switch_if_oper_status s j
      here i j t n e l =
          let same = equal i j e in
          subst
            (λ k.
              get_or
                (watch_links env s n (suc i)
                  (watch_link env i (sim_switch_if_oper_status s i) t)).last_oper
                k down
              ≡ sim_switch_if_oper_status s k)
            same
            (links_before s n (suc i) i (watch_link env i (sim_switch_if_oper_status s i) t)
                (omega arith)
              ∙ link_here i (sim_switch_if_oper_status s i) t (omega arith))

  -- An interface that is recorded as it is sends nothing.
  pub links_quiet :
      (s : SimSwitch) (n i : ℕ) (t : Trap)
      → ((j : ℕ) → i ≤ j → j < i + n → get_or t.last_oper j down ≡ sim_switch_if_oper_status s j)
      → watch_links env s n i t ≡ t
  unfolding watch_links watch_link
  links_quiet s zero i t h = refl
  links_quiet s (suc n) i t h =
      ap (watch_links env s n (suc i))
        (quiet_link (get_or t.last_oper i down) (h i (omega arith) (omega arith)))
      ∙ links_quiet s n (suc i) t (λ j a b. h j (omega arith) (omega arith))
    where
      now : SimIfStatus
      now = sim_switch_if_oper_status s i

      quiet_link :
          (o : SimIfStatus)
          → o ≡ now
          → (if same_status env now o
              then t
              else send_trap env (link_notification env now) (suc i) (set_oper env t i now))
            ≡ t
      quiet_link o e = rw (ap (same_status env now) e ∙ same_status_refl env now)
