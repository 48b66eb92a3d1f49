-- ===== src/Snmp/Trap/Watcher.antt =====
-- What the watcher sends.
use microcontroller_devices.Prelude.{ℕ, zero, suc, ◌<◌}
use microcontroller_devices.Prelude.{if◌then◌else◌}
use microcontroller_devices.Prelude.{◌≡◌, refl, sym, ap, ◌∙◌, arith}
use microcontroller_devices.Prelude.{Bool, true, false, ◌&&◌, ◌||◌, not}
use microcontroller_devices.Prelude.{List}
use microcontroller_devices.Prelude.{length}
use microcontroller_devices.Prelude.{get_or}
use microcontroller_devices.Device.SimSwitch.{
  SimSwitch, SimIfStatus, down, sim_switch_if_count, sim_switch_if_oper_status,
}
use mathlib.Core.Path.{subst}
use microcontroller_devices.Snmp.Trap.{
  Notification, Trap, TrapEnv, send_trap, resolve_if_needed, send_deferred, link_notification,
  set_oper, same_status, watch_link, watch_links, trap_watcher,
}
use microcontroller_devices.Snmp.Trap.Links.{links_record, links_quiet}

module _ (env : TrapEnv) where
  unsent : (n : Notification) (k : ℕ) (t : Trap) → t.mgr_resolved ≡ false → send_trap env n k t ≡ t
  unfolding send_trap
  unsent n k t h = cases t.socket t.mgr_resolved _ h
    where
      cases : (a b : Bool) (u : Trap) → b ≡ false → (if not a || not b then t else u) ≡ t
      cases true false u h = refl
      cases false false u h = refl
      cases a true u h = cc

  link_unresolved :
      (i : ℕ) (now : SimIfStatus) (t : Trap)
      → t.mgr_resolved ≡ false
      → let t' = watch_link env i now t in
        (t'.sent ≡ t.sent)
        × (t'.mgr_resolved ≡ false)
        × (t'.coldstart_pending ≡ t.coldstart_pending)
  unfolding watch_link
  link_unresolved i now t h = cases (same_status env now (get_or t.last_oper i down))
    where
      sent_of : Trap → List (Notification × ℕ × List ℕ)
      sent_of u = u.sent

      resolved_of : Trap → Bool
      resolved_of u = u.mgr_resolved

      pending_of : Trap → Bool
      pending_of u = u.coldstart_pending

      cases :
          (b : Bool)
          → (let t' : Trap =
                if b
                then t
                else send_trap env (link_notification env now) (suc i) (set_oper env t i now) in
              (t'.sent ≡ t.sent)
              × (t'.mgr_resolved ≡ false)
              × (t'.coldstart_pending ≡ t.coldstart_pending))
      cases true = (refl, h, refl)
      cases false =
          let same = unsent (link_notification env now) (suc i) (set_oper env t i now) h in
          (ap sent_of same, ap resolved_of same ∙ h, ap pending_of same)

  -- Nothing is sent to a manager that is not resolved.
  links_unresolved :
      (s : SimSwitch) (n i : ℕ) (t : Trap)
      → t.mgr_resolved ≡ false
      → let t' = watch_links env s n i t in
        (t'.sent ≡ t.sent)
        × (t'.mgr_resolved ≡ false)
        × (t'.coldstart_pending ≡ t.coldstart_pending)
  unfolding watch_links watch_link send_trap
  links_unresolved s zero i t h = (refl, h, refl)
  links_unresolved s (suc n) i t h =
      let now = sim_switch_if_oper_status s i in
      let (a, b, c) = link_unresolved i now t h in
      let (x, y, z) = links_unresolved s n (suc i) (watch_link env i now t) b in (x ∙ a, y, z ∙ c)

  -- In front of the links: neither the record of the links nor, without a pending coldStart, what
  -- was sent.
  resolve_keeps :
      (t : Trap)
      → let t' = resolve_if_needed env t in
        (t'.last_oper ≡ t.last_oper)
        × (t'.sent ≡ t.sent)
        × (t'.coldstart_pending ≡ t.coldstart_pending)
  unfolding resolve_if_needed
  resolve_keeps t = cases t.mgr_resolved
    where
      cases :
          (b : Bool)
          → (let t' : Trap = if b then t else record t { mgr_resolved = env.resolves } in
              (t'.last_oper ≡ t.last_oper)
              × (t'.sent ≡ t.sent)
              × (t'.coldstart_pending ≡ t.coldstart_pending))
      cases true = (refl, refl, refl)
      cases false = (refl, refl, refl)

  no_deferred : (t : Trap) → t.coldstart_pending ≡ false → send_deferred env t ≡ t
  unfolding send_deferred
  no_deferred t h = cases t.mgr_resolved t.coldstart_pending _ h
    where
      cases : (a b : Bool) (u : Trap) → b ≡ false → (if a && b then u else t) ≡ t
      cases true false u h = refl
      cases false false u h = refl
      cases a true u h = cc

  still_unresolved :
      (t : Trap)
      → t.mgr_resolved ≡ false
      → env.resolves ≡ false
      → (resolve_if_needed env t).mgr_resolved ≡ false
  unfolding resolve_if_needed
  still_unresolved t h k = cases t.mgr_resolved h
    where
      cases :
          (b : Bool)
          → b ≡ false
          → (let t' : Trap = if b then t else record t { mgr_resolved = env.resolves } in
              t'.mgr_resolved ≡ false)
      cases false e = k
      cases true e = cc

-- A turn that finds the links as they are recorded, and no coldStart to send.
quiet_turn :
    (env : TrapEnv) (s : SimSwitch) (t : Trap)
    → t.coldstart_pending ≡ false
    → ((j : ℕ)
        → j < sim_switch_if_count s
        → get_or t.last_oper j down ≡ sim_switch_if_oper_status s j)
    → (trap_watcher env s t).sent ≡ t.sent
unfolding trap_watcher
quiet_turn env s t pending h =
    let (same, sent, still) = resolve_keeps env t in
    let t' = resolve_if_needed env t in
    ap (λ (u : Trap). sent_of (watch_links env s (sim_switch_if_count s) 0 u))
      (no_deferred env t' (still ∙ pending))
    ∙ ap sent_of (
        links_quiet env s (sim_switch_if_count s) 0 t'
          (λ j a b. ap (λ l. get_or l j down) same ∙ h j (omega (arith, b))))
    ∙ sent
  where
    sent_of : Trap → List (Notification × ℕ × List ℕ)
    sent_of u = u.sent

unresolved_turn :
    (env : TrapEnv) (s : SimSwitch) (t : Trap)
    → t.mgr_resolved ≡ false
    → env.resolves ≡ false
    → t.coldstart_pending ≡ false
    → length t.last_oper ≡ sim_switch_if_count s
    → let t' = trap_watcher env s t in
      (t'.sent ≡ t.sent)
      × (t'.coldstart_pending ≡ false)
      × ((j : ℕ)
          → j < sim_switch_if_count s
          → get_or t'.last_oper j down ≡ sim_switch_if_oper_status s j)
unfolding trap_watcher
unresolved_turn env s t h k pending size =
    let t' = resolve_if_needed env t in
    let (same, sent, still) = resolve_keeps env t in
    let (a, b, c) =
      links_unresolved env s (sim_switch_if_count s) 0 t' (still_unresolved env t h k) in
    let long = ap length same ∙ size in
    subst Turned (sym (no_deferred env t' (still ∙ pending))) (
      a ∙ sent,
      c ∙ still ∙ pending,
      λ j i.
          links_record env s (sim_switch_if_count s) 0 j t' (omega arith) (omega (arith, i))
            (omega (arith, long)),
    )
  where
    Turned : Trap → Type 0
    Turned u =
        let t' = watch_links env s (sim_switch_if_count s) 0 u in
        (t'.sent ≡ t.sent)
        × (t'.coldstart_pending ≡ false)
        × ((j : ℕ)
            → j < sim_switch_if_count s
            → get_or t'.last_oper j down ≡ sim_switch_if_oper_status s j)

-- A turn of the watcher that finds the manager unresolved, with no coldStart pending, sends
-- nothing, and a turn behind it that finds the links unchanged sends nothing either, whether the
-- manager resolves by then or not: transitions that were seen in between are lost. The record
-- has an entry for each interface.
pub lost_transitions :
    (env env' : TrapEnv) (s : SimSwitch) (t : Trap)
    → t.mgr_resolved ≡ false
    → env.resolves ≡ false
    → t.coldstart_pending ≡ false
    → length t.last_oper ≡ sim_switch_if_count s
    → (trap_watcher env' s (trap_watcher env s t)).sent ≡ t.sent
lost_transitions env env' s t h k pending size =
    let (sent, still, seen) = unresolved_turn env s t h k pending size in
    quiet_turn env' s (trap_watcher env s t) still seen ∙ sent
