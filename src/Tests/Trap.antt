-- ===== src/Tests/Trap.antt =====
-- Notifications of a switch of two interfaces.
use microcontroller_devices.Prelude.{◌≡◌, refl, sym, arith}
use microcontroller_devices.Prelude.{true, false}
use microcontroller_devices.Prelude.{[], ◌∷◌}
use microcontroller_devices.Prelude.Text.{codes}
use microcontroller_devices.Device.SimSwitch.{
  SimSwitch, down, data_source_init, sim_switch_if_count, init_ifs, clamp_count,
}
use microcontroller_devices.Snmp.Ber.Encoder.{ber_enc_init, put_bytes}
use microcontroller_devices.Snmp.Agent.Spec.{pdu_form, message_form}
use microcontroller_devices.Snmp.Trap.{
  Trap, TrapEnv, snmp_pdu_trap_v2, trap_buf_size, link_up, notification_oid, encode_trap,
  trap_watcher,
}
use microcontroller_devices.Snmp.Trap.Message.{trap_varbinds, encode_trap-eq}
use microcontroller_devices.Snmp.Trap.Watcher.{lost_transitions}

abbrev switch : SimSwitch
switch = data_source_init (record { if_count = 2; flap_period_steps = 3 })

two_links : sim_switch_if_count switch ≡ 2
unfolding data_source_init sim_switch_if_count init_ifs clamp_count
two_links = refl

abbrev unreachable : TrapEnv
unreachable = record {
  buf = λ i. 0;
  community = codes "public";
  ticks = 100;
  resolves = false;
  delivers = λ id. true;
}

abbrev reachable : TrapEnv
reachable = record unreachable { resolves = true }

-- Both links were down when the manager was lost.
abbrev unresolved : Trap
unresolved = record {
  socket = true;
  mgr_resolved = false;
  coldstart_pending = false;
  trap_request_id = 7;
  last_oper = down ∷ down ∷ [];
  sent = [];
}

lost_transitions_example :
    (trap_watcher reachable switch (trap_watcher unreachable switch unresolved)).sent ≡ []
lost_transitions_example =
    lost_transitions unreachable reachable switch unresolved refl refl refl (sym two_links)

encode_trap-eq_example :
    encode_trap
      (ber_enc_init (λ i. 0) trap_buf_size)
      (codes "public")
      100
      8
      (notification_oid link_up)
      2
    ≡ put_bytes (ber_enc_init (λ i. 0) trap_buf_size) (
        message_form
          (codes "public")
          (pdu_form snmp_pdu_trap_v2 8 0 0 (trap_varbinds 100 (notification_oid link_up) 2)))
encode_trap-eq_example =
    encode_trap-eq (ber_enc_init (λ i. 0) trap_buf_size) (codes "public") 100 8
      (notification_oid link_up) 2 (omega arith) (omega arith) (omega arith)
