-- ===== src/Ztp/Frame/Sending.antt =====
-- What `send_message` puts on the air.
use microcontroller_devices.Prelude.{ℕ, zero, suc, ◌+◌, ◌-◌, ◌≤◌, ◌<◌}
use microcontroller_devices.Prelude.{◌==◌}
use microcontroller_devices.Prelude.{◌≡◌, refl, sym, ap, ◌∙◌, arith}
use microcontroller_devices.Prelude.{true, false}
use microcontroller_devices.Prelude.{none, some, List, [], ◌∷◌, ◌++◌, append-nil}
use microcontroller_devices.Prelude.{length, drop, All, All-append}
use mathlib.Core.List.{map}
use microcontroller_devices.Prelude.{length-take}
use microcontroller_devices.Ztp.Errors.{Rc, is_ok}
use microcontroller_devices.Ztp.Frame.{
  Msg, tx_frag_max, Attempt, notify_retry, pieces, framed, frames, and_send, send_frames, smaller,
  send_message, put_be16,
}
use microcontroller_devices.Ztp.Frame.Reassembly.{waiting, received, write_all, write_all-frames}

-- The fragments that were notified are the first ones, and all of them if the code is 0.
pub record IsSent (fs : List (List ℕ)) (r : Rc × List (List ℕ)) : Type 0 where
  pub unsent : List (List ℕ)
  pub split : fs ≡ r.1 ++ unsent
  pub complete : is_ok r.0 ≡ true → unsent ≡ []

send_frames-IsSent :
    (attempts : ℕ → Attempt) (t : ℕ) (fs : List (List ℕ)) → IsSent fs (send_frames attempts t fs)
unfolding send_frames
send_frames-IsSent attempts t [] = record { unsent = []; split = refl; complete = λ _. refl }
send_frames-IsSent attempts t (f ∷ fs) =
    cases (notify_retry 250 attempts t) (λ t. send_frames-IsSent attempts t fs)
  where
    cases :
        (r : Rc × ℕ)
        → ((t : ℕ) → IsSent fs (send_frames attempts t fs))
        → IsSent (f ∷ fs) (and_send r f (λ t. send_frames attempts t fs))
    cases (some e, t) h = record { unsent = f ∷ fs; split = refl; complete = λ h. cc }
    cases (none, t) h = record {
      unsent = (h t).unsent;
      split = ap (λ l. f ∷ l) (h t).split;
      complete = (h t).complete;
    }

abbrev pub chunk_of : ℕ → ℕ
chunk_of mtu = smaller tx_frag_max (mtu - 3 - 2)

pub send_message-IsSent :
    (mtu : ℕ) (attempts : ℕ → Attempt) (message : List ℕ)
    → 5 < mtu
    → IsSent (frames (chunk_of mtu) message) (send_message (some mtu) attempts message)
unfolding send_message
send_message-IsSent mtu attempts message h =
    rw (positive mtu h) (send_frames-IsSent attempts 0 (frames (chunk_of mtu) message))
  where
    positive : (mtu : ℕ) → 5 < mtu → (chunk_of mtu == 0) ≡ false
    positive mtu h = ground arith

-- If `send_message` returns 0, the fragments it notified, written one by one to a waiting
-- receiver of this framing, leave the message in its buffer and one event in its queue, a kick
-- for an empty message and a response otherwise. The MTU is above 5, the message fits the
-- buffer, and the queue has room.
pub send_message_arrives :
    (n mtu : ℕ) (attempts : ℕ → Attempt) (message : List ℕ) (q : List Msg)
    → 5 < mtu
    → length message ≤ n
    → length q < 4
    → is_ok (send_message (some mtu) attempts message).0 ≡ true
    → write_all n (waiting q) (send_message (some mtu) attempts message).1 ≡ received message q
send_message_arrives n mtu attempts message q h k room ok =
    let sent = send_message-IsSent mtu attempts message h in
    let all : frames (chunk_of mtu) message ≡ (send_message (some mtu) attempts message).1 =
      sent.split
      ∙ ap (λ l. (send_message (some mtu) attempts message).1 ++ l) (sent.complete ok)
      ∙ append-nil _ in
    ap (write_all n (waiting q)) (sym all)
    ∙ write_all-frames n (chunk_of mtu) q message room (positive mtu h) (small mtu) k
  where
    positive : (mtu : ℕ) → 5 < mtu → 0 < chunk_of mtu
    positive mtu h = ground arith

    small : (mtu : ℕ) → chunk_of mtu ≤ 512
    small mtu = ground arith

pieces_short :
    (fuel chunk a b : ℕ) (message : List ℕ)
    → 2 + chunk ≤ a
    → 2 + chunk ≤ b
    → All (λ f. (length f ≤ a) × (length f ≤ b)) (map framed (pieces fuel chunk message))
unfolding pieces
pieces_short zero chunk a b message h k = tt
pieces_short (suc fuel) chunk a b [] h k = tt
pieces_short (suc fuel) chunk a b (x ∷ xs) h k =
    let size = length-take chunk (x ∷ xs) in
    (
      (omega (arith, size), omega (arith, size)),
      pieces_short fuel chunk a b (drop chunk (x ∷ xs)) h k,
    )

-- Every fragment of a message is within the MTU less three bytes, and within the buffer of 182
-- bytes, at an MTU above 5.
pub frames_short :
    (mtu : ℕ) (message : List ℕ)
    → 5 < mtu
    → All (λ f. (length f ≤ mtu - 3) × (length f ≤ 182)) (frames (chunk_of mtu) message)
unfolding frames
frames_short mtu message h =
    All-append (λ f. (length f ≤ mtu - 3) × (length f ≤ 182))
      (map framed (pieces (length message) (chunk_of mtu) message)) (put_be16 0 ∷ [])
      (pieces_short (length message) (chunk_of mtu) (mtu - 3) 182 message (within mtu h)
        (below mtu))
      ((omega arith, omega arith), tt)
  where
    within : (mtu : ℕ) → 5 < mtu → 2 + chunk_of mtu ≤ mtu - 3
    within mtu h = ground arith

    below : (mtu : ℕ) → 2 + chunk_of mtu ≤ 182
    below mtu = ground arith
