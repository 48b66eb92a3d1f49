-- ===== src/Provisioner/Improv/Settings.antt =====
-- The settings frame of apps/wifi-provisioner/src/improv.c.
use microcontroller_devices.Prelude.{ℕ, zero, suc, ◌+◌, ◌-◌, ◌≤◌, ◌<◌}
use microcontroller_devices.Prelude.{ltb, leb, ◌==◌, ==_iff}
use microcontroller_devices.Prelude.{◌≡◌, refl, ap, ap₂, ◌∙◌, arith, ◌⊎◌}
use microcontroller_devices.Prelude.{true, false}
use microcontroller_devices.Prelude.{some, List, [], ◌∷◌, ◌++◌, append_assoc}
use microcontroller_devices.Prelude.{length, length-append, take, drop}
use microcontroller_devices.Prelude.{get_or}
use microcontroller_devices.Prelude.{take_append, drop_append}
use microcontroller_devices.Provisioner.Improv.{
  Creds, settings, Improv, checksum, parse_settings, accept_settings, handle_frame, st_authorized,
  st_provisioning, err_none, cmd_wifi_settings, prov_q_len,
}

-- The frame of the Improv protocol for the given credentials.
abbrev pub settings_data : Creds → List ℕ
settings_data c = length c.ssid ∷ (c.ssid ++ (length c.psk ∷ c.psk))

abbrev pub settings_head : Creds → List ℕ
settings_head c = cmd_wifi_settings ∷ length (settings_data c) ∷ settings_data c

abbrev pub settings_frame : Creds → List ℕ
settings_frame c = settings_head c ++ (checksum (settings_head c) ∷ [])

-- A network name of 1 to 32 bytes and a passphrase of up to 64.
pub record IsCreds (c : Creds) : Type 0 where
  pub ssid_pos : 0 < length c.ssid
  pub ssid_le : length c.ssid ≤ 32
  pub psk_le : length c.psk ≤ 64

get_or_append : (xs ys : List ℕ) (y : ℕ) → get_or (xs ++ (y ∷ ys)) (length xs) 0 ≡ y
get_or_append [] ys y = refl
get_or_append (x ∷ xs) ys y = get_or_append xs ys y

one_more : (n : ℕ) → 1 + n ≡ suc n
one_more n = omega arith

two_more : (n : ℕ) → 2 + n ≡ suc (suc n)
two_more n = omega arith

drop-suc : (n : ℕ) (xs : List ℕ) → drop (suc n) xs ≡ drop 1 (drop n xs)
drop-suc zero xs = refl
drop-suc (suc n) [] = refl
drop-suc (suc n) (x ∷ xs) = drop-suc n xs

parse_settings-settings_data :
    (c : Creds) (rest : List ℕ)
    → IsCreds c
    → parse_settings (length (settings_data c)) (settings_data c ++ rest) ≡ some c
unfolding parse_settings
parse_settings-settings_data c rest h =
    rw
      (some_len, not_short, not_empty, not_long, not_over, psk_at, psk_fits, exact, ssid_is, psk_is)
      refl
  where
    tail : List ℕ
    tail = length c.psk ∷ (c.psk ++ rest)

    len : ℕ
    len = length (settings_data c)

    len_is : len ≡ length c.ssid + length c.psk + 2
    len_is = omega (arith, length-append c.ssid (length c.psk ∷ c.psk))

    d : List ℕ
    d = settings_data c ++ rest

    d_is : d ≡ length c.ssid ∷ (c.ssid ++ tail)
    d_is = ap (λ l. length c.ssid ∷ l) (append_assoc c.ssid (length c.psk ∷ c.psk) rest)

    some_len : leb 1 len ≡ true
    some_len = ground (arith, len_is)

    not_short : ltb len 2 ≡ false
    not_short = ground (arith, len_is, h.ssid_pos)

    not_empty : (length c.ssid == 0) ≡ false
    not_empty = ground (arith, h.ssid_pos)

    not_long : ltb 32 (length c.ssid) ≡ false
    not_long = ground (arith, h.ssid_le)

    not_over : ltb len (length c.ssid + 2) ≡ false
    not_over = ground (arith, len_is)

    psk_at : get_or d (1 + length c.ssid) 0 ≡ length c.psk
    psk_at =
        ap₂ (λ l n. get_or l n 0) d_is (one_more (length c.ssid))
        ∙ get_or_append c.ssid (c.psk ++ rest) (length c.psk)

    psk_fits : ltb 64 (length c.psk) ≡ false
    psk_fits = ground (arith, h.psk_le)

    exact : (length c.ssid + length c.psk + 2 == len) ≡ true
    exact = ground (arith, len_is)

    ssid_is : take (length c.ssid) (drop 1 d) ≡ c.ssid
    ssid_is = ap (λ l. take (length c.ssid) (drop 1 l)) d_is ∙ take_append c.ssid tail

    psk_is : take (length c.psk) (drop (2 + length c.ssid) d) ≡ c.psk
    psk_is =
        ap₂ (λ l n. take (length c.psk) (drop n l)) d_is (two_more (length c.ssid))
        ∙ ap (take (length c.psk)) (drop-suc (length c.ssid) (c.ssid ++ tail))
        ∙ ap (λ l. take (length c.psk) (drop 1 l)) (drop_append c.ssid tail)
        ∙ take_append c.psk rest

sum_lt : (bs : List ℕ) → checksum bs < 256
unfolding checksum
sum_lt bs = omega arith

-- The frame of valid credentials passes the length and the checksum test, and is handled as these
-- credentials.
pub handle_frame-settings_frame :
    (s : Improv) (c : Creds) → IsCreds c → handle_frame s (settings_frame c) ≡ accept_settings s c
unfolding handle_frame
handle_frame-settings_frame s c h = rw (sized, summed, parsed) refl
  where
    n : ℕ
    n = length (settings_frame c)

    n_is : n ≡ length (settings_head c) + 1
    n_is = length-append (settings_head c) (checksum (settings_head c) ∷ [])

    sized : (n == length (settings_data c) + 3) ≡ true
    sized = ground (arith, n_is)

    before : n - 1 ≡ length (settings_head c)
    before = omega (arith, n_is)

    summed :
        (checksum (take (n - 1) (settings_frame c)) == get_or (settings_frame c) (n - 1) 0) ≡ true
    summed =
        rw
          (
            before,
            take_append (settings_head c) (checksum (settings_head c) ∷ []),
            get_or_append (settings_head c) [] (checksum (settings_head c)),
          )
          ((==_iff _ _).1 refl)

    parsed : parse_settings (length (settings_data c)) (drop 2 (settings_frame c)) ≡ some c
    parsed = parse_settings-settings_data c (checksum (settings_head c) ∷ []) h

accept_settings_cases :
    (s : Improv) (c : Creds)
    → let s' = accept_settings s c in
      ((s.cur_state ≡ st_authorized)
        × (length s.prov_q < prov_q_len)
        × (s'.prov_q ≡ s.prov_q ++ (settings c ∷ []))
        × (s'.cur_state ≡ st_provisioning)
        × (s'.cur_error ≡ err_none)
        × (accept_settings s' c ≡ s'))
      ⊎ (((s.cur_state ≡ st_authorized) → prov_q_len ≤ length s.prov_q)
          × (s'.prov_q ≡ s.prov_q)
          × (s'.cur_state ≡ s.cur_state))
unfolding accept_settings
accept_settings_cases s c = ground arith

-- The frame of valid credentials (a network name of 1 to 32 bytes, a passphrase of up to 64)
-- queues them as they are, behind what is queued, in the authorized state alone and where there
-- is room; the state moves on, and the same frame again changes nothing. In every other case the
-- queue and the state stay.
pub handle_frame_queues :
    (s : Improv) (c : Creds)
    → IsCreds c
    → let s' = handle_frame s (settings_frame c) in
      ((s.cur_state ≡ st_authorized)
        × (length s.prov_q < prov_q_len)
        × (s'.prov_q ≡ s.prov_q ++ (settings c ∷ []))
        × (s'.cur_state ≡ st_provisioning)
        × (s'.cur_error ≡ err_none)
        × (handle_frame s' (settings_frame c) ≡ s'))
      ⊎ (((s.cur_state ≡ st_authorized) → prov_q_len ≤ length s.prov_q)
          × (s'.prov_q ≡ s.prov_q)
          × (s'.cur_state ≡ s.cur_state))
handle_frame_queues s c h =
    rw (handle_frame-settings_frame s c h, handle_frame-settings_frame (accept_settings s c) c h)
      (accept_settings_cases s c)
