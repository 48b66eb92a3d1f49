-- ===== src/Ztp/Frame/Reassembly.antt =====
-- The receiving side of a message: `write_request` and `rx_fragment`.
use microcontroller_devices.Prelude.{ℕ, zero, suc, ◌+◌, ◌*◌, ◌/◌, ◌%◌, ◌≤◌, ◌<◌}
use microcontroller_devices.Prelude.{ltb, leb, ◌==◌, if◌then◌else◌, lt→ltb}
use microcontroller_devices.Prelude.{◌≡◌, refl, sym, ap, ◌∙◌, arith}
use microcontroller_devices.Prelude.{Bool, true, false, ◌&&◌}
use microcontroller_devices.Prelude.{List, [], ◌∷◌, ◌++◌, append-nil, append_assoc}
use microcontroller_devices.Prelude.{length, length-append, take, drop}
use mathlib.Core.List.{map}
use microcontroller_devices.Prelude.{length-take, length-drop, take-append-drop}
use microcontroller_devices.Ztp.Frame.{
  Msg, msg_kick, msg_response, Rx, post, frag_max, get_be16, put_be16, rx_fragment, Gatt, accepted,
  invalid_attribute_len, take_fragment, write_request, pieces, framed, frames,
}

-- The relay's writes, each at offset 0.
abbrev pub write_all : ℕ → Rx → List (List ℕ) → Rx
write_all n r [] = r
write_all n r (f ∷ fs) = write_all n (write_request n r f 0 false).1 fs

be16_back : (n : ℕ) (s : List ℕ) → n < 65536 → get_be16 (put_be16 n ++ s) ≡ n
be16_back n s h = omega arith

take_all : {A : Type 0} (xs : List A) → take (length xs) xs ≡ xs
take_all [] = refl
take_all (x ∷ xs) = ap (λ l. x ∷ l) (take_all xs)

framed_size : (piece : List ℕ) → length piece ≤ frag_max → get_be16 (framed piece) ≡ length piece
framed_size piece h = omega arith

fragment_piece :
    (n : ℕ) (r : Rx) (piece : List ℕ)
    → 0 < length piece
    → length piece ≤ frag_max
    → length r.rx_buf + length piece ≤ n
    → rx_fragment n (record r { frag = framed piece })
      ≡ record r { rx_buf = r.rx_buf ++ piece; frag = framed piece }
unfolding rx_fragment
fragment_piece n r piece h k i = rw (
  framed_size piece k,
  not_zero (length piece) h,
  fits (length r.rx_buf + length piece) n i,
  take_all piece,
)
  where
    not_zero : (a : ℕ) → 0 < a → (a == 0) ≡ false
    not_zero a h = ground arith

    fits : (a b : ℕ) → a ≤ b → ltb b a ≡ false
    fits a b h = ground arith

abbrev emptied : Rx → Rx
emptied r = record r { frag = [] }

take_fragment_piece :
    (n : ℕ) (r : Rx) (piece : List ℕ)
    → 0 < length piece
    → length piece ≤ frag_max
    → length r.rx_buf + length piece ≤ n
    → take_fragment n (record r { frag = framed piece })
      ≡ record r { rx_buf = r.rx_buf ++ piece; frag = [] }
take_fragment_piece n r piece h k i =
    rw (whole (length piece) k) (ap (λ (q : Rx). emptied q) (fragment_piece n r piece h k i))
  where
    whole :
        (a : ℕ)
        → a ≤ 512
        → (leb 2 (suc (suc a)) && leb (2 + (a / 256 % 256 * 256 + a % 256)) (suc (suc a))) ≡ true
    whole a h = ground arith

-- One fragment for an idle receiver.
write_piece :
    (n : ℕ) (r : Rx) (piece : List ℕ)
    → r.rx_busy ≡ false
    → 0 < length piece
    → length piece ≤ frag_max
    → length r.rx_buf + length piece ≤ n
    → (write_request n r (framed piece) 0 false).1
      ≡ record r { rx_buf = r.rx_buf ++ piece; frag = [] }
unfolding write_request
write_piece n r piece idle h k i =
    pick r.rx_busy (ltb 514 (0 + length (framed piece))) idle (small (length piece) k)
    ∙ take_fragment_piece n r piece h k i
  where
    pick :
        (busy long : Bool)
        → busy ≡ false
        → long ≡ false
        → (let w : Gatt × Rx =
              if busy
              then (accepted (length (framed piece)), r)
              else if long
              then (invalid_attribute_len, record r { frag = [] })
              else (
                accepted (length (framed piece)),
                take_fragment n (record r { frag = framed piece }),
              ) in
            w.1 ≡ take_fragment n (record r { frag = framed piece }))
    pick false false h i = refl
    pick false true h i = cc
    pick true long h i = cc

    small : (a : ℕ) → a ≤ 512 → ltb 514 (0 + suc (suc a)) ≡ false
    small a h = ground arith

write_end :
    (n : ℕ) (r : Rx)
    → r.rx_busy ≡ false
    → r.rx_overflow ≡ false
    → length r.queue < 4
    → (write_request n r (put_be16 0) 0 false).1 ≡ record r {
      rx_busy = true;
      frag = [];
      queue = r.queue ++ ((if length r.rx_buf == 0 then msg_kick else msg_response) ∷ []);
    }
unfolding write_request rx_fragment post
write_end n r idle fine room = rw (idle, fine, lt→ltb (length r.queue) 4 room)

abbrev with_buf : Rx → List ℕ → Rx
with_buf r b = record r { rx_buf = b }

-- What the pieces of a message do to an idle receiver.
write_pieces :
    (n fuel chunk : ℕ) (r : Rx) (message : List ℕ) (rest : List (List ℕ))
    → r.rx_busy ≡ false
    → r.frag ≡ []
    → 0 < chunk
    → chunk ≤ frag_max
    → length message ≤ fuel
    → length r.rx_buf + length message ≤ n
    → write_all n r (map framed (pieces fuel chunk message) ++ rest)
      ≡ write_all n (record r { rx_buf = r.rx_buf ++ message }) rest
unfolding pieces
write_pieces n zero chunk r [] rest idle clean h k i j =
    ap (λ b. write_all n (with_buf r b) rest) (sym (append-nil r.rx_buf))
write_pieces n (suc fuel) chunk r [] rest idle clean h k i j =
    ap (λ b. write_all n (with_buf r b) rest) (sym (append-nil r.rx_buf))
write_pieces n zero chunk r (b ∷ bs) rest idle clean h k i j = absurd (omega arith)
write_pieces n (suc fuel) chunk r (b ∷ bs) rest idle clean h k i j =
    let piece = take chunk (b ∷ bs) in
    let more = drop chunk (b ∷ bs) in
    let size = length-take chunk (b ∷ bs) in
    let left = length-drop chunk (b ∷ bs) in
    ap (λ q. write_all n q (map framed (pieces fuel chunk more) ++ rest))
      (write_piece n r piece idle (omega (arith, size)) (omega (arith, size))
          (omega (arith, size, j))
        ∙ ap (λ f. record r { rx_buf = r.rx_buf ++ piece; frag = f }) (sym clean))
    ∙ write_pieces n fuel chunk (with_buf r (r.rx_buf ++ piece)) more rest idle clean h k
        (omega (arith, left)) (omega (arith, left, size, length-append r.rx_buf piece))
    ∙ ap (λ l. write_all n (with_buf r l) rest)
        (append_assoc r.rx_buf piece more
          ∙ ap (λ l. r.rx_buf ++ l) (take-append-drop chunk (b ∷ bs)))

-- A receiver that waits for a message.
abbrev pub waiting : List Msg → Rx
waiting q = record { rx_buf = []; rx_overflow = false; rx_busy = false; frag = []; queue = q }

-- A receiver that has handed the message to the main thread.
abbrev pub received : List ℕ → List Msg → Rx
received message q = record {
  rx_buf = message;
  rx_overflow = false;
  rx_busy = true;
  frag = [];
  queue = q ++ ((if length message == 0 then msg_kick else msg_response) ∷ []);
}

pub write_all-frames :
    (n chunk : ℕ) (q : List Msg) (message : List ℕ)
    → length q < 4
    → 0 < chunk
    → chunk ≤ frag_max
    → length message ≤ n
    → write_all n (waiting q) (frames chunk message) ≡ received message q
unfolding frames
write_all-frames n chunk q message room h k i =
    write_pieces n (length message) chunk (waiting q) message (put_be16 0 ∷ []) refl refl h k
      (omega arith) (omega arith)
    ∙ write_end n (with_buf (waiting q) message) refl refl room

pub busy_ignores :
    (n : ℕ) (r : Rx) (buf : List ℕ) (offset : ℕ) (prepare : Bool)
    → r.rx_busy ≡ true
    → (write_request n r buf offset prepare).1 ≡ r
unfolding write_request
busy_ignores n r buf offset true busy = refl
busy_ignores n r buf offset false busy = pick r.rx_busy _ busy
  where
    pick :
        (b : Bool) (w : Gatt × Rx)
        → b ≡ true
        → (let v : Gatt × Rx = if b then (accepted (length buf), r) else w in v.1 ≡ r)
    pick true w h = refl
    pick false w h = cc

pub write_end_lost :
    (n : ℕ) (r : Rx)
    → r.rx_busy ≡ false
    → 4 ≤ length r.queue
    → (write_request n r (put_be16 0) 0 false).1 ≡ record r { rx_busy = true; frag = [] }
unfolding write_request rx_fragment post
write_end_lost n r idle full = rw (idle, full_queue (length r.queue) full)
  where
    full_queue : (a : ℕ) → 4 ≤ a → ltb a 4 ≡ false
    full_queue a h = ground arith
