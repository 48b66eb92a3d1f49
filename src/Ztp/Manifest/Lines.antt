-- ===== src/Ztp/Manifest/Lines.antt =====
-- The lines that `ztp_kv_next` goes through.
use microcontroller_devices.Prelude.{ℕ, zero, suc, ◌≤◌, ◌<◌}
use microcontroller_devices.Prelude.{◌≡◌, refl, sym, ap, ◌∙◌, arith}
use microcontroller_devices.Prelude.{Option, none, some, List, [], ◌∷◌, ◌++◌}
use microcontroller_devices.Prelude.{length, length-append, All}
use microcontroller_devices.Prelude.Text.{
  split_first, Without, split_first-append, split_first-some,
}
use microcontroller_devices.Ztp.Manifest.{
  split_or, split_kv, kv_or, Kv, first_line, strip_cr, kv_of, kv_loop, ztp_kv_next, kv_list,
  records_of,
}

pub first_line-append :
    (line rest : List ℕ) → Without 10 line → first_line (line ++ (10 ∷ rest)) ≡ (line, rest)
unfolding first_line
first_line-append line rest h =
    ap (split_or (line ++ (10 ∷ rest))) (split_first-append 10 line rest h)

pub first_line_le : (c : ℕ) (cs : List ℕ) → length (first_line (c ∷ cs)).1 ≤ length cs
unfolding first_line
first_line_le c cs = cases (split_first 10 (c ∷ cs)) (split_first-some 10 (c ∷ cs))
  where
    cases :
        (o : Option (List ℕ × List ℕ))
        → ((p q : List ℕ) → o ≡ some (p, q) → (c ∷ cs ≡ p ++ (10 ∷ q)) × Without 10 p)
        → length (split_or (c ∷ cs) o).1 ≤ length cs
    cases none f = omega arith
    cases (some (p, q)) f = omega (arith, ap length (f p q refl).0, length-append p (10 ∷ q))

-- Fuel for every byte is enough.
pub kv_loop_fuel :
    (n m : ℕ) (cur : List ℕ) → length cur ≤ n → length cur ≤ m → kv_loop n cur ≡ kv_loop m cur
unfolding kv_loop
kv_loop_fuel zero zero [] h k = refl
kv_loop_fuel zero (suc m) [] h k = refl
kv_loop_fuel (suc n) zero [] h k = refl
kv_loop_fuel (suc n) (suc m) [] h k = refl
kv_loop_fuel zero m (c ∷ cs) h k = absurd (omega arith)
kv_loop_fuel (suc n) zero (c ∷ cs) h k = absurd (omega arith)
kv_loop_fuel (suc n) (suc m) (c ∷ cs) h k =
    let (line, rest) = first_line (c ∷ cs) in
    let short = first_line_le c cs in
    ap (kv_or (kv_of (strip_cr line)) rest)
      (kv_loop_fuel n m rest (omega (arith, short)) (omega (arith, short)))

-- One line of the text that is not empty.
kv_next_step :
    (c : ℕ) (cs : List ℕ)
    → ztp_kv_next (c ∷ cs)
      ≡ kv_or
          (kv_of (strip_cr (first_line (c ∷ cs)).0))
          (first_line (c ∷ cs)).1
          (ztp_kv_next (first_line (c ∷ cs)).1)
unfolding ztp_kv_next kv_loop
kv_next_step c cs =
    let (line, rest) = first_line (c ∷ cs) in
    ap (kv_or (kv_of (strip_cr line)) rest)
      (kv_loop_fuel (length cs) (length rest) rest (first_line_le c cs) (omega arith))

-- A line with its line feed in front of the rest of the text.
pub kv_next_line :
    (line rest : List ℕ)
    → Without 10 line
    → ztp_kv_next (line ++ (10 ∷ rest)) ≡ kv_or (kv_of (strip_cr line)) rest (ztp_kv_next rest)
kv_next_line [] rest h =
    kv_next_step 10 rest
    ∙ ap (λ p. kv_or (kv_of (strip_cr p.0)) p.1 (ztp_kv_next p.1)) (first_line-append [] rest h)
kv_next_line (c ∷ cs) rest h =
    kv_next_step c (cs ++ (10 ∷ rest))
    ∙ ap (λ p. kv_or (kv_of (strip_cr p.0)) p.1 (ztp_kv_next p.1))
        (first_line-append (c ∷ cs) rest h)

pub kv_next_nil : ztp_kv_next [] ≡ none
unfolding ztp_kv_next kv_loop
kv_next_nil = refl

record_or_later :
    (o : Option Kv) (post : List ℕ) (kv : Kv) (rest : List ℕ) (later : Option (Kv × List ℕ)) (b : ℕ)
    → kv_or o post later ≡ some (kv, rest)
    → length post ≤ b
    → (later ≡ some (kv, rest) → length rest < length post)
    → length rest ≤ b
record_or_later none post kv rest later b e h f = omega (arith, f e)
record_or_later (some kv') post kv rest later b e h f =
    let same : post ≡ rest = cc in omega (arith, ap length same)

-- Each record is behind the one before it.
pub kv_next_shorter :
    (n : ℕ) (cur : List ℕ) (kv : Kv) (rest : List ℕ)
    → length cur ≤ n
    → ztp_kv_next cur ≡ some (kv, rest)
    → length rest < length cur
kv_next_shorter n [] kv rest h e = absurd (none_some (sym kv_next_nil ∙ e))
  where
    none_some : ◌≡◌ {A = Option (Kv × List ℕ)} none (some (kv, rest)) → ⊥
    none_some e = cc
kv_next_shorter zero (c ∷ cs) kv rest h e = absurd (omega arith)
kv_next_shorter (suc n) (c ∷ cs) kv rest h e =
    let (line, post) = first_line (c ∷ cs) in
    let short = first_line_le c cs in
    let le : length rest ≤ length cs =
      record_or_later (kv_of (strip_cr line)) post kv rest (ztp_kv_next post) (length cs)
        (sym (kv_next_step c cs) ∙ e) short
        (kv_next_shorter n post kv rest (omega (arith, short))) in
    omega (arith, le)

-- A record as a line of the text.
abbrev pub line_of : Kv → List ℕ
line_of kv = kv.key ++ (61 ∷ kv.val)

-- No carriage return stands at the end of the line.
abbrev pub NoCr : List ℕ → Type 0
NoCr s = strip_cr s ≡ s

-- The key has no equals sign and the line is one line.
pub record IsLine (kv : Kv) : Type 0 where
  pub key_ok : Without 61 kv.key
  pub one_line : Without 10 (line_of kv)
  pub no_cr : NoCr (line_of kv)

abbrev pub text_of : List Kv → List ℕ
text_of [] = []
text_of (kv ∷ kvs) = line_of kv ++ (10 ∷ text_of kvs)

pub kv_next_line_of :
    (kv : Kv) (rest : List ℕ)
    → IsLine kv
    → ztp_kv_next (line_of kv ++ (10 ∷ rest)) ≡ some (kv, rest)
unfolding kv_of
kv_next_line_of kv rest h =
    kv_next_line (line_of kv) rest h.one_line
    ∙ ap (λ l. kv_or (kv_of l) rest (ztp_kv_next rest)) h.no_cr
    ∙ ap (λ o. kv_or (split_kv o) rest (ztp_kv_next rest))
        (split_first-append 61 kv.key kv.val h.key_ok)

kv_list_next :
    (n : ℕ) (cur : List ℕ) (kv : Kv) (rest : List ℕ)
    → ztp_kv_next cur ≡ some (kv, rest)
    → kv_list (suc n) cur ≡ kv ∷ kv_list n rest
unfolding kv_list
kv_list_next n cur kv rest e =
    ap (λ o. elim o as (λ _. List Kv) [ none ↦ [] | some (kv, rest) ↦ kv ∷ kv_list n rest ]) e

kv_list-text_of :
    (n : ℕ) (kvs : List Kv)
    → All IsLine kvs
    → length (text_of kvs) ≤ n
    → kv_list n (text_of kvs) ≡ kvs
unfolding kv_list
kv_list-text_of zero [] h k = refl
kv_list-text_of (suc n) [] h k =
    ap (λ o. elim o as (λ _. List Kv) [ none ↦ [] | some (kv, rest) ↦ kv ∷ kv_list n rest ])
      kv_next_nil
kv_list-text_of zero (kv ∷ kvs) h k =
    absurd (omega (arith, length-append (line_of kv) (10 ∷ text_of kvs)))
kv_list-text_of (suc n) (kv ∷ kvs) h k =
    let short = length-append (line_of kv) (10 ∷ text_of kvs) in
    kv_list_next n (text_of (kv ∷ kvs)) kv (text_of kvs) (kv_next_line_of kv (text_of kvs) h.0)
    ∙ ap (λ l. kv ∷ l) (kv_list-text_of n kvs h.1 (omega (arith, short)))

-- Records printed as lines are the records that the loop over `ztp_kv_next` goes through, in
-- order: no key has an equals sign, no line a line feed, and no line ends in a carriage return.
pub records_of-text_of : (kvs : List Kv) → All IsLine kvs → records_of (text_of kvs) ≡ kvs
records_of-text_of kvs h = kv_list-text_of (length (text_of kvs)) kvs h (omega arith)
