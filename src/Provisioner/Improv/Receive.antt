-- ===== src/Provisioner/Improv/Receive.antt =====
-- Receiving a frame: the bound of the buffer, and a frame that is split across writes.
use microcontroller_devices.Prelude.{ℕ, ◌+◌, ◌≤◌, ◌<◌}
use microcontroller_devices.Prelude.{ltb, leb, ◌==◌, if◌then◌else◌, ltb→lt, lt→ltb}
use microcontroller_devices.Prelude.{◌≡◌, refl, sym, ap, ◌∙◌, arith}
use microcontroller_devices.Prelude.{Bool, true, false, ◌&&◌, not}
use microcontroller_devices.Prelude.{
  Option, none, some, List, [], ◌∷◌, ◌++◌, append-nil, append_assoc,
}
use microcontroller_devices.Prelude.{length, length-append}
use microcontroller_devices.Prelude.{get_or}
use mathlib.Core.Path.{subst}
use microcontroller_devices.Prelude.{le→leb}
use microcontroller_devices.Provisioner.Improv.{
  Improv, handle_frame, complete, receive, continuing, write_rpc, frame_max,
}

receive_bound :
    (s : Improv) (before buf : List ℕ) (now : ℕ) → length (receive s before buf now).rx ≤ frame_max
unfolding receive
receive_bound s before buf now = ground (arith, length-append before buf)

-- `write_rpc` leaves no more than 101 bytes in its buffer, whatever is written at whatever
-- offset, if there were no more before.
pub write_rpc_bound :
    (s : Improv) (buf : List ℕ) (offset : ℕ) (prepare execute : Bool) (now : ℕ)
    → length s.rx ≤ frame_max
    → length (write_rpc s buf offset prepare execute now).1.rx ≤ frame_max
unfolding write_rpc
write_rpc_bound s buf offset prepare execute now h =
    let kept = if offset == 0 && not (continuing s execute now) then [] else s.rx in
    cases prepare (not (offset == 0) && not (offset == length s.rx)) kept
  where
    cases :
        (a b : Bool) (before : List ℕ)
        → (let w : Option ℕ × Improv =
              if a
              then (some 0, s)
              else (if b then (none, s) else (some (length buf), receive s before buf now)) in
            length w.1.rx ≤ frame_max)
    cases true b before = h
    cases false true before = h
    cases false false before = receive_bound s before buf now

-- A whole frame: its length byte is right, and it fits the buffer.
pub record IsFrame (f : List ℕ) : Type 0 where
  pub sized : length f ≡ get_or f 1 0 + 3
  pub length_le : length f ≤ frame_max

-- The continuation of a write: some bytes at some time.
pub record Chunk : Type 0 where
  pub bytes : List ℕ
  pub at : ℕ

abbrev pub concat : List Chunk → List ℕ
concat [] = []
concat (c ∷ cs) = c.bytes ++ concat cs

-- Writes at offset 0, one behind the other.
abbrev pub deliver : Improv → List Chunk → Improv
deliver s [] = s
deliver s (c ∷ cs) = deliver (write_rpc s c.bytes 0 false false c.at).1 cs

abbrev pub last_at : ℕ → List Chunk → ℕ
last_at t [] = t
last_at t (c ∷ cs) = last_at c.at cs

-- No chunk is empty, and each follows within two seconds of the one before it.
abbrev pub Prompt : ℕ → List Chunk → Type 0
Prompt t [] = Unit
Prompt t (c ∷ cs) = (0 < length c.bytes) × (c.at < t + 2000) × Prompt c.at cs

length_byte : (xs ys : List ℕ) → 2 ≤ length xs → get_or (xs ++ ys) 1 0 ≡ get_or xs 1 0
length_byte [] ys h = absurd (omega arith)
length_byte (x ∷ []) ys h = absurd (omega arith)
length_byte (x ∷ y ∷ xs) ys h = refl

-- What a write does with the bytes `p` that it keeps.
abbrev kept : Improv → List ℕ → ℕ → Improv
kept s p now = record s { rx = p; rx_last = now }

abbrev handled : Improv → List ℕ → ℕ → Improv
handled s f now = record (handle_frame (kept s f now) f) { rx = [] }

partial_incomplete :
    (p rest : List ℕ)
    → IsFrame (p ++ rest)
    → 2 ≤ length p
    → 0 < length rest
    → ltb (length p) (get_or p 1 0 + 3) ≡ true
partial_incomplete p rest f two more =
    ground (arith, f.sized, length_byte p rest two, length-append p rest)

continues :
    (s : Improv) (p rest : List ℕ) (now : ℕ)
    → s.rx ≡ p
    → IsFrame (p ++ rest)
    → 2 ≤ length p
    → 0 < length rest
    → now < s.rx_last + 2000
    → continuing s false now ≡ true
continues s p rest now e f two more soon =
    let q : ltb (length s.rx) (get_or s.rx 1 0 + 3) ≡ true =
      rw e (partial_incomplete p rest f two more) in
    let two' : leb 2 (length s.rx) ≡ true = rw e (le→leb 2 (length p) two) in
    rw (two', q, lt→ltb now (s.rx_last + 2000) soon) refl

receive_part :
    (s : Improv) (p b rest : List ℕ) (now : ℕ)
    → IsFrame ((p ++ b) ++ rest)
    → 2 ≤ length (p ++ b)
    → 0 < length rest
    → receive s p b now ≡ kept s (p ++ b) now
unfolding receive
receive_part s p b rest now f two more = rw (small, part) refl
  where
    small : ltb frame_max (length p + length b) ≡ false
    small = ground (arith, f.length_le, length-append (p ++ b) rest, length-append p b)

    part : complete (p ++ b) ≡ false
    part =
        let q : ltb (length (p ++ b)) (get_or (p ++ b) 1 0 + 3) ≡ true =
          partial_incomplete (p ++ b) rest f two more in
        let l : length (p ++ b) < get_or (p ++ b) 1 0 + 3 = ltb→lt _ _ q in ground (arith, l)

receive_whole :
    (s : Improv) (p b : List ℕ) (now : ℕ)
    → IsFrame (p ++ b)
    → receive s p b now ≡ handled s (p ++ b) now
unfolding receive
receive_whole s p b now f = rw (small, whole) refl
  where
    small : ltb frame_max (length p + length b) ≡ false
    small = ground (arith, f.length_le, length-append p b)

    whole : complete (p ++ b) ≡ true
    whole = ground (arith, f.sized)

-- A chunk that continues the frame.
write_next :
    (s : Improv) (p b rest : List ℕ) (now : ℕ)
    → s.rx ≡ p
    → IsFrame (p ++ rest)
    → 2 ≤ length p
    → 0 < length rest
    → now < s.rx_last + 2000
    → (write_rpc s b 0 false false now).1 ≡ receive s p b now
unfolding write_rpc
write_next s p b rest now e f two more soon =
    rw (continues s p rest now e f two more soon) (ap (λ l. receive s l b now) e)

write_first :
    (s : Improv) (b : List ℕ) (now : ℕ)
    → s.rx ≡ []
    → (write_rpc s b 0 false false now).1 ≡ receive s [] b now
unfolding write_rpc
write_first s b now e = rw e refl

deliver_rest :
    (s : Improv) (p : List ℕ) (t : ℕ) (c : Chunk) (cs : List Chunk)
    → 2 ≤ length p
    → IsFrame (p ++ concat (c ∷ cs))
    → Prompt t (c ∷ cs)
    → deliver (kept s p t) (c ∷ cs) ≡ handled s (p ++ concat (c ∷ cs)) (last_at c.at cs)
deliver_rest s p t c [] two f h =
    let e : c.bytes ++ [] ≡ c.bytes = append-nil c.bytes in
    let f' : IsFrame (p ++ c.bytes) = subst (λ l. IsFrame (p ++ l)) e f in
    write_next (kept s p t) p c.bytes c.bytes c.at refl f' two h.0 h.1
    ∙ receive_whole (kept s p t) p c.bytes c.at f'
    ∙ ap (λ l. handled s (p ++ l) c.at) (sym e)
deliver_rest s p t c (d ∷ cs) two f h =
    let e : p ++ concat (c ∷ d ∷ cs) ≡ (p ++ c.bytes) ++ concat (d ∷ cs) =
      sym (append_assoc p c.bytes (concat (d ∷ cs))) in
    let f' : IsFrame ((p ++ c.bytes) ++ concat (d ∷ cs)) = subst IsFrame e f in
    let long : 2 ≤ length (p ++ c.bytes) = omega (arith, length-append p c.bytes) in
    let more : 0 < length (concat (d ∷ cs)) =
      omega (arith, length-append d.bytes (concat cs), h.2.0) in
    let all : 0 < length (concat (c ∷ d ∷ cs)) =
      omega (arith, length-append c.bytes (concat (d ∷ cs))) in
    ap (λ s'. deliver s' (d ∷ cs))
      (write_next (kept s p t) p c.bytes (concat (c ∷ d ∷ cs)) c.at refl f two all h.1
        ∙ receive_part (kept s p t) p c.bytes (concat (d ∷ cs)) c.at f' long more)
    ∙ deliver_rest s (p ++ c.bytes) c.at d cs long f' h.2
    ∙ ap (λ l. handled s l (last_at d.at cs)) (sym e)

-- A frame that fits the buffer and is split across writes at offset 0 is handled as if it had
-- come in one write at the time of the last of them: the buffer is empty before, the first write
-- has at least two bytes, no other is empty, and each comes less than two seconds behind the one
-- before it.
pub deliver_split :
    (s : Improv) (c : Chunk) (cs : List Chunk)
    → s.rx ≡ []
    → 2 ≤ length c.bytes
    → IsFrame (concat (c ∷ cs))
    → Prompt c.at cs
    → deliver s (c ∷ cs) ≡ deliver s (record { bytes = concat (c ∷ cs); at = last_at c.at cs } ∷ [])
deliver_split s c cs e two f h =
    split cs f h
    ∙ sym (
        write_first s (concat (c ∷ cs)) (last_at c.at cs) e
        ∙ receive_whole s [] (concat (c ∷ cs)) (last_at c.at cs) f)
  where
    split :
        (cs : List Chunk)
        → IsFrame (concat (c ∷ cs))
        → Prompt c.at cs
        → deliver s (c ∷ cs) ≡ handled s (concat (c ∷ cs)) (last_at c.at cs)
    split [] f h =
        let q : c.bytes ++ [] ≡ c.bytes = append-nil c.bytes in
        write_first s c.bytes c.at e
        ∙ receive_whole s [] c.bytes c.at (subst IsFrame q f)
        ∙ ap (λ l. handled s l c.at) (sym q)
    split (d ∷ cs) f h =
        ap (λ s'. deliver s' (d ∷ cs))
          (write_first s c.bytes c.at e
            ∙ receive_part s [] c.bytes (concat (d ∷ cs)) c.at f two
                (omega (arith, length-append d.bytes (concat cs), h.0)))
        ∙ deliver_rest s c.bytes c.at d cs two f h
