-- ===== src/Prelude/Text.antt =====
-- Texts as the bytes of C strings.
use Prim.Native.Char.{code}
use Prim.Native.String.{String}
use Prim.Native.Nat.{ℕ}
use mathlib.Core.List.{List, [], ◌∷◌, ◌++◌}
use mathlib.Core.Option.{Option, none, some}
use mathlib.Core.Bool.{Bool, true, false, ◌&&◌, not}
use mathlib.Core.Path.{◌≡◌, refl, sym, ap, ap₂, ◌∙◌, subst}
use mathlib.Core.Logic.{◌≢◌, inl, inr}
use native.Mathlib.Omega.{arith}
use microcontroller_devices.Prelude.Tests.{◌==◌, if◌then◌else◌, Bool-cases}
use microcontroller_devices.Prelude.Lists.{All}

-- The bytes of an ASCII text.
abbrev pub codes : String → List ℕ
codes String.[] = []
codes (String.◌∷◌ c s) = code c ∷ codes s

-- `strcmp` and `memcmp` on whole texts.
unfoldable pub text_eq : List ℕ → List ℕ → Bool
text_eq [] [] = true
text_eq [] (b ∷ bs) = false
text_eq (a ∷ s) [] = false
text_eq (a ∷ s) (b ∷ t) = a == b && text_eq s t

abbrev pub prepend : ℕ → Option (List ℕ × List ℕ) → Option (List ℕ × List ℕ)
prepend x none = none
prepend x (some (pre, post)) = some (x ∷ pre, post)

abbrev pub found_here : List ℕ → Option (List ℕ × List ℕ)
found_here s = some ([], s)

-- What stands before and behind the first `c`: `memchr` and the pointer it gives.
unfoldable pub split_first : ℕ → List ℕ → Option (List ℕ × List ℕ)
split_first c [] = none
split_first c (x ∷ xs) = if x == c then found_here xs else prepend x (split_first c xs)

pub text_eq_refl : (s : List ℕ) → text_eq s s ≡ true
unfolding text_eq
text_eq_refl [] = refl
text_eq_refl (x ∷ xs) = ground (arith, text_eq_refl xs)

pub text_eq-true : (s t : List ℕ) → text_eq s t ≡ true → s ≡ t
unfolding text_eq
text_eq-true [] [] h = refl
text_eq-true [] (y ∷ t) h = cc
text_eq-true (x ∷ s) [] h = cc
text_eq-true (x ∷ s) (y ∷ t) h =
    let (p, q) = both (x == y) (text_eq s t) h in
    ap₂ (λ a b. a ∷ b) (eq_of x y p) (text_eq-true s t q)
  where
    both : (a b : Bool) → (a && b) ≡ true → (a ≡ true) × (b ≡ true)
    both true b h = (refl, h)
    both false b h = cc

    eq_of : (x y : ℕ) → (x == y) ≡ true → x ≡ y
    eq_of x y h = ground arith

ne→== : (x c : ℕ) → x ≢ c → (x == c) ≡ false
ne→== x c h = ground arith

-- No byte of the text is `c`.
abbrev pub Without : ℕ → List ℕ → Type 0
Without c s = All (λ x. x ≢ c) s

-- The same as a test.
abbrev pub free_of : ℕ → List ℕ → Bool
free_of c [] = true
free_of c (x ∷ s) = not (x == c) && free_of c s

pub free_of-Without : (c : ℕ) (s : List ℕ) → free_of c s ≡ true → Without c s
free_of-Without c [] h = tt
free_of-Without c (x ∷ s) h =
    let (p, q) = both (x == c) (free_of c s) h in (apart x c p, free_of-Without c s q)
  where
    both : (a b : Bool) → (not a && b) ≡ true → (a ≡ false) × (b ≡ true)
    both false b h = (refl, h)
    both true b h = cc

    apart : (x c : ℕ) → (x == c) ≡ false → x ≢ c
    apart x c h = ground arith

pub split_first-append :
    (c : ℕ) (s t : List ℕ) → Without c s → split_first c (s ++ (c ∷ t)) ≡ some (s, t)
unfolding split_first
split_first-append c [] t h = ground arith
split_first-append c (x ∷ s) t h = rw (ne→== x c h.0, split_first-append c s t h.1)

pub split_first-Without : (c : ℕ) (s : List ℕ) → Without c s → split_first c s ≡ none
unfolding split_first
split_first-Without c [] h = refl
split_first-Without c (x ∷ s) h = rw (ne→== x c h.0, split_first-Without c s h.1)

-- One step of the search, for the result of the rest of it.
extend :
    (c x : ℕ) (s pre post : List ℕ) (o : Option (List ℕ × List ℕ))
    → x ≢ c
    → ((p q : List ℕ) → o ≡ some (p, q) → (s ≡ p ++ (c ∷ q)) × Without c p)
    → prepend x o ≡ some (pre, post)
    → (x ∷ s ≡ pre ++ (c ∷ post)) × Without c pre
extend c x s pre post none ne ih h = cc
extend c x s pre post (some (p, q)) ne ih h =
    let (split, free) = ih p q refl in
    let e : x ∷ p ≡ pre = cc in
    let e' : q ≡ post = cc in
    (ap (λ t. x ∷ t) split ∙ ap₂ (λ a b. a ++ (c ∷ b)) e e', subst (Without c) e (ne, free))

pub split_first-some :
    (c : ℕ) (s pre post : List ℕ)
    → split_first c s ≡ some (pre, post)
    → (s ≡ pre ++ (c ∷ post)) × Without c pre
unfolding split_first
split_first-some c [] pre post h = cc
split_first-some c (x ∷ s) pre post h = elim (Bool-cases (x == c)) [
  | inl e ↦ found x e (sym (rw e) ∙ h)
  | inr e ↦
      extend c x s pre post (split_first c s) (==→ne x c e) (split_first-some c s) (sym (rw e) ∙ h)
]
  where
    ==→eq : (x c : ℕ) → (x == c) ≡ true → x ≡ c
    ==→eq x c h = ground arith

    ==→ne : (x c : ℕ) → (x == c) ≡ false → x ≢ c
    ==→ne x c h = ground arith

    found :
        (x : ℕ)
        → (x == c) ≡ true
        → found_here s ≡ some (pre, post)
        → (x ∷ s ≡ pre ++ (c ∷ post)) × Without c pre
    found x e h =
        let p : [] ≡ pre = cc in
        let q : s ≡ post = cc in
        (ap₂ (λ y t. y ∷ t) (==→eq x c e) q ∙ ap (λ t. t ++ (c ∷ post)) p, subst (Without c) p tt)
