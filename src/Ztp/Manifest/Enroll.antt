-- ===== src/Ztp/Manifest/Enroll.antt =====
-- `ztp_response_parse` against the last record of each key.
use microcontroller_devices.Prelude.{ℕ}
use microcontroller_devices.Prelude.{◌==◌, if◌then◌else◌}
use microcontroller_devices.Prelude.{◌≡◌, refl, ap, ◌∙◌, arith}
use microcontroller_devices.Prelude.{Bool, true, false, ◌&&◌, not}
use microcontroller_devices.Prelude.{Option, none, some, List, [], ◌∷◌}
use microcontroller_devices.Prelude.{length}
use microcontroller_devices.Prelude.Text.{codes, text_eq, text_eq_refl, text_eq-true}
use microcontroller_devices.Ztp.Manifest.{
  Kv, ztp_slice_eq, unknown, Response, no_response, status_of, response_kv, fold_left, is_unknown,
  ztp_response_parse, records_of,
}

slice_eq-true : (s t : List ℕ) → ztp_slice_eq s t ≡ true → s ≡ t
unfolding ztp_slice_eq
slice_eq-true s t h = text_eq-true s t (second (length s == length t) (text_eq s t) h)
  where
    second : (a b : Bool) → (a && b) ≡ true → b ≡ true
    second true b h = h
    second false b h = cc

pub slice_eq_refl : (s : List ℕ) → ztp_slice_eq s s ≡ true
unfolding ztp_slice_eq
slice_eq_refl s = ground (arith, text_eq_refl s)

-- A text that is one literal is not another.
pub slice_other :
    (s a b : List ℕ) → ztp_slice_eq a b ≡ false → ztp_slice_eq s a ≡ true → ztp_slice_eq s b ≡ false
slice_other s a b h k = ap (λ t. ztp_slice_eq t b) (slice_eq-true s a k) ∙ h

-- The value of the last record with the key.
abbrev pub last_or : Option (List ℕ) → Bool → List ℕ → Option (List ℕ)
last_or (some v) t w = some v
last_or none true w = some w
last_or none false w = none

unfoldable pub last_value : List ℕ → List Kv → Option (List ℕ)
last_value key [] = none
last_value key (kv ∷ kvs) = last_or (last_value key kvs) (ztp_slice_eq kv.key key) kv.val

abbrev pub map_or : {A : Type 0} → (List ℕ → A) → A → Option (List ℕ) → A
map_or f a none = a
map_or f a (some v) = f v

pub map_or_last :
    {A : Type 0} (f : List ℕ → A) (a : A) (o : Option (List ℕ)) (t : Bool) (w : List ℕ)
    → map_or f (if t then f w else a) o ≡ map_or f a (last_or o t w)
map_or_last f a none true w = refl
map_or_last f a none false w = refl
map_or_last f a (some v) t w = refl

-- A field of the state that each record of one key sets keeps what the last of them says.
pub fold_left_last :
    {A S : Type 0} (step : S → Kv → S) (key : List ℕ) (field : S → A) (f : List ℕ → A)
    → ((s : S) (kv : Kv)
        → field (step s kv) ≡ (if ztp_slice_eq kv.key key then f kv.val else field s))
    → (s : S) (kvs : List Kv)
    → field (fold_left step s kvs) ≡ map_or f (field s) (last_value key kvs)
unfolding last_value
fold_left_last step key field f h s [] = refl
fold_left_last step key field f h s (kv ∷ kvs) =
    fold_left_last step key field f h (step s kv) kvs
    ∙ ap (λ a. map_or f a (last_value key kvs)) (h s kv)
    ∙ map_or_last f (field s) (last_value key kvs) (ztp_slice_eq kv.key key) kv.val

version_step :
    (s : Bool × Response) (kv : Kv)
    → (response_kv s kv).0 ≡ (
        if ztp_slice_eq kv.key (codes "protocol_version")
        then ztp_slice_eq kv.val (codes "1")
        else s.0)
unfolding response_kv
version_step s kv = ground arith

status_apart :
    (s : List ℕ)
    → (ztp_slice_eq s (codes "protocol_version") ≡ true → ztp_slice_eq s (codes "status") ≡ false)
unfolding ztp_slice_eq text_eq
status_apart s = slice_other s (codes "protocol_version") (codes "status") refl

status_step :
    (s : Bool × Response) (kv : Kv)
    → (response_kv s kv).1.status
      ≡ (if ztp_slice_eq kv.key (codes "status") then status_of kv.val else s.1.status)
unfolding response_kv
status_step s kv = let apart = status_apart kv.key in ground arith

reason_apart :
    (s : List ℕ)
    → (ztp_slice_eq s (codes "protocol_version") ≡ true → ztp_slice_eq s (codes "reason") ≡ false)
      × (ztp_slice_eq s (codes "status") ≡ true → ztp_slice_eq s (codes "reason") ≡ false)
unfolding ztp_slice_eq text_eq
reason_apart s = (
  slice_other s (codes "protocol_version") (codes "reason") refl,
  slice_other s (codes "status") (codes "reason") refl,
)

reason_step :
    (s : Bool × Response) (kv : Kv)
    → (response_kv s kv).1.reason
      ≡ (if ztp_slice_eq kv.key (codes "reason") then kv.val else s.1.reason)
unfolding response_kv
reason_step s kv = let apart = reason_apart kv.key in ground arith

manifest_apart :
    (s : List ℕ)
    → (ztp_slice_eq s (codes "protocol_version") ≡ true
        → ztp_slice_eq s (codes "manifest.payload") ≡ false)
      × (ztp_slice_eq s (codes "status") ≡ true → ztp_slice_eq s (codes "manifest.payload") ≡ false)
      × (ztp_slice_eq s (codes "reason") ≡ true → ztp_slice_eq s (codes "manifest.payload") ≡ false)
      × (ztp_slice_eq s (codes "retry_after") ≡ true
          → ztp_slice_eq s (codes "manifest.payload") ≡ false)
      × (ztp_slice_eq s (codes "server_time") ≡ true
          → ztp_slice_eq s (codes "manifest.payload") ≡ false)
unfolding ztp_slice_eq text_eq
manifest_apart s = (
  slice_other s (codes "protocol_version") (codes "manifest.payload") refl,
  slice_other s (codes "status") (codes "manifest.payload") refl,
  slice_other s (codes "reason") (codes "manifest.payload") refl,
  slice_other s (codes "retry_after") (codes "manifest.payload") refl,
  slice_other s (codes "server_time") (codes "manifest.payload") refl,
)

manifest_step :
    (s : Bool × Response) (kv : Kv)
    → (response_kv s kv).1.manifest
      ≡ (if ztp_slice_eq kv.key (codes "manifest.payload") then kv.val else s.1.manifest)
unfolding response_kv
manifest_step s kv = let apart = manifest_apart kv.key in ground arith

-- What `ztp_response_parse` reports as status, reason and manifest is what the last record of
-- that key says, and it succeeds exactly where the last protocol_version is 1 and the status is
-- known.
pub ztp_response_parse-last_value :
    (buf : List ℕ)
    → let (ok, r) = ztp_response_parse buf in
      let last = λ (key : List ℕ). last_value key (records_of buf) in
      (r.status ≡ map_or status_of unknown (last (codes "status")))
      × (r.reason ≡ map_or (λ v. v) [] (last (codes "reason")))
      × (r.manifest ≡ map_or (λ v. v) [] (last (codes "manifest.payload")))
      × (ok ≡ (
          map_or (λ v. ztp_slice_eq v (codes "1")) false (last (codes "protocol_version"))
          && not (is_unknown r.status)))
unfolding ztp_response_parse
ztp_response_parse-last_value buf =
    let kvs = records_of buf in
    let start : Bool × Response = (false, no_response) in
    (
      fold_left_last response_kv (codes "status") (λ s. s.1.status) status_of status_step start kvs,
      fold_left_last response_kv (codes "reason") (λ s. s.1.reason) (λ v. v) reason_step start kvs,
      fold_left_last response_kv (codes "manifest.payload") (λ s. s.1.manifest) (λ v. v)
          manifest_step start kvs,
      ap (λ b. b && not (is_unknown (fold_left response_kv start kvs).1.status))
          (fold_left_last response_kv (codes "protocol_version") (λ s. s.0)
            (λ v. ztp_slice_eq v (codes "1")) version_step start kvs),
    )
