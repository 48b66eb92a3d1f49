-- ===== src/Tests/Improv.antt =====
-- The Improv RPC on a small frame.
use microcontroller_devices.Prelude.{◌≤◌, ◌<◌}
use microcontroller_devices.Prelude.{◌≡◌, refl, arith, ◌⊎◌}
use microcontroller_devices.Prelude.{[], ◌∷◌}
use microcontroller_devices.Provisioner.Improv.{
  Improv, Creds, settings, handle_frame, prov_q_len, st_authorized, st_provisioning, err_none,
}
use microcontroller_devices.Provisioner.Improv.Settings.{
  IsCreds, settings_frame, handle_frame_queues,
}
use microcontroller_devices.Provisioner.Improv.Receive.{Chunk, deliver, deliver_split}

abbrev idle : Improv
idle = record { cur_state = 2; cur_error = 0; rx = []; rx_last = 0; prov_q = [] }

abbrev home : Creds
home = record { ssid = 104 ∷ 111 ∷ []; psk = 112 ∷ 119 ∷ 100 ∷ [] }

home-IsCreds : IsCreds home
home-IsCreds = record { ssid_pos = omega arith; ssid_le = omega arith; psk_le = omega arith }

-- Identify, in two writes: the command and the length, then the checksum.
abbrev first_half : Chunk
first_half = record { bytes = 2 ∷ 0 ∷ []; at = 100 }

abbrev second_half : Chunk
second_half = record { bytes = 2 ∷ []; at = 300 }

deliver_split_example :
    deliver idle (first_half ∷ second_half ∷ [])
    ≡ deliver idle (record { bytes = 2 ∷ 0 ∷ 2 ∷ []; at = 300 } ∷ [])
deliver_split_example =
    deliver_split idle first_half (second_half ∷ []) refl (omega arith)
      (record { sized = refl; length_le = omega arith }) (omega arith, omega arith, tt)

handle_frame_queues_example :
    let s' = handle_frame idle (settings_frame home) in
    ((2 ≡ st_authorized)
      × (0 < prov_q_len)
      × (s'.prov_q ≡ settings home ∷ [])
      × (s'.cur_state ≡ st_provisioning)
      × (s'.cur_error ≡ err_none)
      × (handle_frame s' (settings_frame home) ≡ s'))
    ⊎ ((2 ≡ st_authorized → prov_q_len ≤ 0) × (s'.prov_q ≡ []) × (s'.cur_state ≡ 2))
handle_frame_queues_example = handle_frame_queues idle home home-IsCreds
