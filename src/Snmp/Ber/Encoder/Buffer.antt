-- ===== src/Snmp/Ber/Encoder/Buffer.antt =====
-- The buffer discipline of the encoder: what a run of `put_byte` calls leaves in the buffer.
use microcontroller_devices.Prelude.{ℕ, zero, suc, ◌+◌, ◌-◌, ◌≤◌, ◌<◌}
use microcontroller_devices.Prelude.{◌≡◌, refl, sym, ap, ap₂, ◌∙◌, arith, true, false}
use microcontroller_devices.Prelude.{List, [], ◌∷◌, ◌++◌, length, reverse}
use mathlib.Core.List.{reverse-cons}
use microcontroller_devices.Snmp.Ber.Encoder.{BerEnc, store, put_byte, put_bytes, put_each}

-- The `n` bytes of a memory from index `i` on.
abbrev pub window : (ℕ → ℕ) → ℕ → ℕ → List ℕ
window m i zero = []
window m i (suc n) = m i ∷ window m (suc i) n

-- The bytes written so far, `[pos, cap)`.
abbrev pub contents : BerEnc → List ℕ
contents e = window e.base e.pos (e.cap - e.pos)

put_byte_full : (e : BerEnc) (b : ℕ) → e.overflow ≡ true → put_byte e b ≡ e
unfolding put_byte
put_byte_full e b h = ground arith

pub put_bytes_full : (e : BerEnc) (bs : List ℕ) → e.overflow ≡ true → put_bytes e bs ≡ e
unfolding put_bytes
put_bytes_full e [] h = refl
put_bytes_full e (b ∷ bs) h = rw (put_bytes_full e bs h) (put_byte_full e b h)

pub put_bytes-append :
    (e : BerEnc) (xs ys : List ℕ) → put_bytes e (xs ++ ys) ≡ put_bytes (put_bytes e ys) xs
unfolding put_bytes
put_bytes-append e [] ys = refl
put_bytes-append e (x ∷ xs) ys = rw (put_bytes-append e xs ys)

pub put_each-eq : (e : BerEnc) (bs : List ℕ) → put_each e bs ≡ put_bytes e (reverse bs)
unfolding put_each put_bytes
put_each-eq e [] = refl
put_each-eq e (b ∷ bs) =
    put_each-eq (put_byte e b) bs
    ∙ sym (put_bytes-append e (reverse bs) (b ∷ []))
    ∙ ap (put_bytes e) (sym (reverse-cons b bs))

-- A run that does not overflow moves `pos` down by the number of bytes, and `cap` stays.
pub record Wrote (e : BerEnc) (bs : List ℕ) (e' : BerEnc) : Type 0 where
  pub cap_same : e'.cap ≡ e.cap
  pub pos_down : e'.overflow ≡ false → e'.pos + length bs ≡ e.pos
  pub no_overflow : e.overflow ≡ false → length bs ≤ e.pos → e'.overflow ≡ false
  pub pos_le : e'.pos ≤ e.pos

put_byte-Wrote :
    (e e' : BerEnc) (bs : List ℕ) (b : ℕ) → Wrote e bs e' → Wrote e (b ∷ bs) (put_byte e' b)
unfolding put_byte
put_byte-Wrote e e' bs b w = ground arith

pub put_bytes-Wrote : (e : BerEnc) (bs : List ℕ) → Wrote e bs (put_bytes e bs)
unfolding put_bytes
put_bytes-Wrote e [] = ground arith
put_bytes-Wrote e (b ∷ bs) = put_byte-Wrote e (put_bytes e bs) bs b (put_bytes-Wrote e bs)

pub window-store : (m : ℕ → ℕ) (i b j n : ℕ) → i < j → window (store m i b) j n ≡ window m j n
window-store m i b j zero h = refl
window-store m i b j (suc n) h = ap₂ ◌∷◌ (ground arith) (window-store m i b (suc j) n (omega arith))

window_of_lt :
    (m : ℕ → ℕ) (p n : ℕ) → suc p ≤ n → window m p (n - p) ≡ m p ∷ window m (suc p) (n - suc p)
window_of_lt m p n h = let e : n - p ≡ suc (n - suc p) = omega arith in rw e

put_byte_fits :
    (e : BerEnc) (b p : ℕ)
    → e.overflow ≡ false
    → e.pos ≡ suc p
    → put_byte e b ≡ record e { base = store e.base p b; pos = p }
unfolding put_byte
put_byte_fits e b p ho hp = let q : e.pos - 1 ≡ p = omega arith in rw (ho, q) (ground arith)

-- One `put_byte` that fits puts its byte in front of the contents.
contents-put_byte :
    (e : BerEnc) (b p : ℕ)
    → e.overflow ≡ false
    → e.pos ≡ suc p
    → e.pos ≤ e.cap
    → contents (put_byte e b) ≡ b ∷ contents e
contents-put_byte e b p ho hp hc =
    ap contents (put_byte_fits e b p ho hp)
    ∙ window_of_lt (store e.base p b) p e.cap (omega arith)
    ∙ ap₂ ◌∷◌ (ground arith) (window-store e.base p b (suc p) (e.cap - suc p) (omega arith))
    ∙ ap (λ k. b ∷ window e.base k (e.cap - k)) (sym hp)

-- What `put_bytes` writes stands in order in front of what was there, if it fits: no overflow
-- before, room for the bytes, and a position within the capacity.
pub contents-put_bytes :
    (e : BerEnc) (bs : List ℕ)
    → e.overflow ≡ false
    → length bs ≤ e.pos
    → e.pos ≤ e.cap
    → contents (put_bytes e bs) ≡ bs ++ contents e
unfolding put_bytes
contents-put_bytes e [] ho hl hc = refl
contents-put_bytes e (b ∷ bs) ho hl hc =
    let w = put_bytes-Wrote e bs in
    contents-put_byte (put_bytes e bs) b ((put_bytes e bs).pos - 1) (w.no_overflow ho (omega arith))
      (omega (arith, w.pos_down (w.no_overflow ho (omega arith))))
      (omega (arith, w.pos_le, w.cap_same))
    ∙ ap (λ l. b ∷ l) (contents-put_bytes e bs ho (omega arith) hc)

-- A run of writes changes no byte at or behind the write position.
pub put_bytes_frame :
    (e : BerEnc) (bs : List ℕ) (j : ℕ) → e.pos ≤ j → (put_bytes e bs).base j ≡ e.base j
unfolding put_bytes put_byte
put_bytes_frame e [] j h = refl
put_bytes_frame e (b ∷ bs) j h = ground (arith, put_bytes_frame e bs j h, put_bytes-Wrote e bs)
