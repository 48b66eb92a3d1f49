-- ===== src/Ztp/Manifest/Modules.antt =====
-- The module lines of a manifest.
use microcontroller_devices.Prelude.{ℕ, zero, suc, ◌≤◌, ◌<◌}
use microcontroller_devices.Prelude.{◌==◌, if◌then◌else◌}
use microcontroller_devices.Prelude.{◌≡◌, ◌≢◌, refl, sym, ap, ◌∙◌, arith, inl, inr}
use microcontroller_devices.Prelude.{Bool, true, false, Option-cases}
use microcontroller_devices.Prelude.{Option, none, some, List, [], ◌∷◌, ◌++◌}
use microcontroller_devices.Prelude.{length, length-append, All}
use microcontroller_devices.Prelude.Text.{
  codes, text_eq, Without, split_first-append, split_first-Without,
}
use microcontroller_devices.Ztp.Manifest.{
  Kv, ztp_kv_next, ztp_slice_eq, field_of, next_field, Module, clear, sealed, clear_fields,
  sealed_fields, Next, module_found, at_end, found_or_malformed, module_loop,
  ztp_manifest_next_module,
}
use microcontroller_devices.Ztp.Manifest.Lines.{
  IsLine, line_of, kv_next_nil, kv_next_line_of, kv_next_shorter,
}

-- A field: not empty, with no space.
pub record IsField (f : List ℕ) : Type 0 where
  pub nonempty : 0 < length f
  pub no_space : Without 32 f

skip_space : (s : List ℕ) → next_field (32 ∷ s) ≡ next_field s
unfolding next_field
skip_space s = refl

not_space : (c : ℕ) → c ≢ 32 → (c == 32) ≡ false
not_space c h = ground arith

next_field-append :
    (f rest : List ℕ) → IsField f → next_field (f ++ (32 ∷ rest)) ≡ some (f, 32 ∷ rest)
unfolding next_field
next_field-append [] rest h = absurd (omega (arith, h.nonempty))
next_field-append (c ∷ f) rest h = rw (not_space c h.no_space.0) (
    ap (λ o. some (field_of (c ∷ f ++ (32 ∷ rest)) o))
      (split_first-append 32 (c ∷ f) rest h.no_space))

next_field_last : (f : List ℕ) → IsField f → next_field f ≡ some (f, [])
unfolding next_field
next_field_last [] h = absurd (omega (arith, h.nonempty))
next_field_last (c ∷ f) h =
    rw (not_space c h.no_space.0)
      (ap (λ o. some (field_of (c ∷ f) o)) (split_first-Without 32 (c ∷ f) h.no_space))

-- The value of a module line: its fields with a space between two of them.
abbrev pub value_of : Module → List ℕ
value_of (clear type payload) = type ++ (32 ∷ payload)
value_of (sealed type format eph nonce ciphertext) =
    type ++ (32 ∷ (format ++ (32 ∷ (eph ++ (32 ∷ (nonce ++ (32 ∷ ciphertext)))))))

abbrev pub fields_of : Module → List (List ℕ)
fields_of (clear type payload) = type ∷ payload ∷ []
fields_of (sealed type format eph nonce ciphertext) = type ∷ format ∷ eph ∷ nonce ∷ ciphertext ∷ []

abbrev pub key_of : Module → List ℕ
key_of (clear type payload) = codes "module"
key_of (sealed type format eph nonce ciphertext) = codes "module-sealed"

abbrev pub kv_of_module : Module → Kv
kv_of_module m = record { key = key_of m; val = value_of m }

clear_fields-value_of :
    (type payload : List ℕ)
    → IsField type
    → IsField payload
    → clear_fields (value_of (clear type payload)) ≡ some (clear type payload)
clear_fields-value_of type payload a b =
    rw (next_field-append type payload a, skip_space payload, next_field_last payload b)

sealed_fields-value_of :
    (type format eph nonce ciphertext : List ℕ)
    → IsField type
    → IsField format
    → IsField eph
    → IsField nonce
    → IsField ciphertext
    → sealed_fields (value_of (sealed type format eph nonce ciphertext))
      ≡ some (sealed type format eph nonce ciphertext)
sealed_fields-value_of t f e n c a b d g h = rw (
  next_field-append t (f ++ (32 ∷ (e ++ (32 ∷ (n ++ (32 ∷ c)))))) a,
  skip_space (f ++ (32 ∷ (e ++ (32 ∷ (n ++ (32 ∷ c)))))),
  next_field-append f (e ++ (32 ∷ (n ++ (32 ∷ c)))) b,
  skip_space (e ++ (32 ∷ (n ++ (32 ∷ c)))),
  next_field-append e (n ++ (32 ∷ c)) d,
  skip_space (n ++ (32 ∷ c)),
  next_field-append n c g,
  skip_space c,
  next_field_last c h,
)

-- What one record is to the loop, with what the loop does behind it.
abbrev pub by_key : Kv → List ℕ → Next → Next
by_key kv rest later =
    if ztp_slice_eq kv.key (codes "module")
    then found_or_malformed (clear_fields kv.val) rest
    else if ztp_slice_eq kv.key (codes "module-sealed")
    then found_or_malformed (sealed_fields kv.val) rest
    else later

pub loop_some :
    (n : ℕ) (cur : List ℕ) (kv : Kv) (rest : List ℕ)
    → ztp_kv_next cur ≡ some (kv, rest)
    → module_loop (suc n) cur ≡ by_key kv rest (module_loop n rest)
unfolding module_loop
loop_some n cur kv rest e =
    ap
      (λ o. elim o as (λ _. Next) [
        | none ↦ at_end
        | some (kv, rest) ↦ by_key kv rest (module_loop n rest)
      ])
      e

by_key-module :
    (m : Module) (rest : List ℕ) (later : Next)
    → All IsField (fields_of m)
    → by_key (kv_of_module m) rest later ≡ module_found m rest
unfolding ztp_slice_eq text_eq
by_key-module (clear type payload) rest later h =
    ap (λ o. found_or_malformed o rest) (clear_fields-value_of type payload h.0 h.1.0)
by_key-module (sealed t f e n c) rest later h =
    ap (λ o. found_or_malformed o rest)
      (sealed_fields-value_of t f e n c h.0 h.1.0 h.1.1.0 h.1.1.1.0 h.1.1.1.1.0)

loop_line :
    (n : ℕ) (m : Module) (rest : List ℕ)
    → IsLine (kv_of_module m)
    → All IsField (fields_of m)
    → 0 < n
    → module_loop n (line_of (kv_of_module m) ++ (10 ∷ rest)) ≡ module_found m rest
loop_line zero m rest h k p = absurd (omega arith)
loop_line (suc n) m rest h k p =
    loop_some n (line_of (kv_of_module m) ++ (10 ∷ rest)) (kv_of_module m) rest
      (kv_next_line_of (kv_of_module m) rest h)
    ∙ by_key-module m rest (module_loop n rest) k

-- A module that is printed as a line, clear or sealed, is what `ztp_manifest_next_module`
-- returns, with the cursor behind the line. Its fields are not empty and have no space.
pub next_module_line :
    (m : Module) (rest : List ℕ)
    → IsLine (kv_of_module m)
    → All IsField (fields_of m)
    → ztp_manifest_next_module (line_of (kv_of_module m) ++ (10 ∷ rest)) ≡ module_found m rest
unfolding ztp_manifest_next_module
next_module_line m rest h k =
    loop_line (length (line_of (kv_of_module m) ++ (10 ∷ rest))) m rest h k
      (omega (arith, length-append (line_of (kv_of_module m)) (10 ∷ rest)))

found_rest :
    (o : Option Module) (m : Module) (cur rest : List ℕ)
    → found_or_malformed o cur ≡ module_found m rest
    → cur ≡ rest
found_rest none m cur rest e = cc
found_rest (some m') m cur rest e = cc

by_key_le :
    (a b : Bool) (o o' : Option Module) (cur rest : List ℕ) (m : Module) (later : Next)
    → (if a then found_or_malformed o cur else (if b then found_or_malformed o' cur else later))
      ≡ module_found m rest
    → (later ≡ module_found m rest → length rest < length cur)
    → length rest ≤ length cur
by_key_le true b o o' cur rest m later e f = omega (arith, ap length (found_rest o m cur rest e))
by_key_le false true o o' cur rest m later e f =
    omega (arith, ap length (found_rest o' m cur rest e))
by_key_le false false o o' cur rest m later e f = omega (arith, f e)

pub loop_none : (n : ℕ) (cur : List ℕ) → ztp_kv_next cur ≡ none → module_loop (suc n) cur ≡ at_end
unfolding module_loop
loop_none n cur e =
    ap
      (λ o. elim o as (λ _. Next) [
        | none ↦ at_end
        | some (kv, rest) ↦ by_key kv rest (module_loop n rest)
      ])
      e

pub loop_zero : (cur : List ℕ) → module_loop zero cur ≡ at_end
unfolding module_loop
loop_zero cur = refl

not_found : (m : Module) (rest : List ℕ) → at_end ≡ module_found m rest → ⊥
not_found m rest e = cc

loop_shorter :
    (n : ℕ) (cur : List ℕ) (m : Module) (rest : List ℕ)
    → module_loop n cur ≡ module_found m rest
    → length rest < length cur
loop_shorter zero cur m rest e = absurd (not_found m rest (sym (loop_zero cur) ∙ e))
loop_shorter (suc n) cur m rest e = elim (Option-cases (ztp_kv_next cur)) [
  | inl h ↦ absurd (not_found m rest (sym (loop_none n cur h) ∙ e))
  | inr ((kv, post), h) ↦
      let short : length post < length cur =
        kv_next_shorter (length cur) cur kv post (omega arith) h in
      let le : length rest ≤ length post =
        by_key_le (ztp_slice_eq kv.key (codes "module"))
          (ztp_slice_eq kv.key (codes "module-sealed")) (clear_fields kv.val) (sealed_fields kv.val)
          post rest m (module_loop n post) (sym (loop_some n cur kv post h) ∙ e)
          (loop_shorter n post m rest) in
      omega (arith, short, le)
]

-- The cursor moves past every module that is returned.
pub next_module_shorter :
    (cur : List ℕ) (m : Module) (rest : List ℕ)
    → ztp_manifest_next_module cur ≡ module_found m rest
    → length rest < length cur
unfolding ztp_manifest_next_module
next_module_shorter cur m rest e = loop_shorter (length cur) cur m rest e

loop_nil : (n : ℕ) → module_loop n [] ≡ at_end
loop_nil zero = loop_zero []
loop_nil (suc n) = loop_none n [] kv_next_nil

loop_fuel :
    (n k : ℕ) (cur : List ℕ)
    → length cur ≤ n
    → length cur ≤ k
    → module_loop n cur ≡ module_loop k cur
loop_fuel n k [] h i = loop_nil n ∙ sym (loop_nil k)
loop_fuel zero k (c ∷ cs) h i = absurd (omega arith)
loop_fuel (suc n) zero (c ∷ cs) h i = absurd (omega arith)
loop_fuel (suc n) (suc k) (c ∷ cs) h i = elim (Option-cases (ztp_kv_next (c ∷ cs))) [
  | inl e ↦ loop_none n (c ∷ cs) e ∙ sym (loop_none k (c ∷ cs) e)
  | inr ((kv, post), e) ↦
      let short : length post < suc (length cs) =
        kv_next_shorter (suc (length cs)) (c ∷ cs) kv post (omega arith) e in
      loop_some n (c ∷ cs) kv post e
      ∙ ap (by_key kv post) (loop_fuel n k post (omega arith) (omega arith))
      ∙ sym (loop_some k (c ∷ cs) kv post e)
]

skip_loop :
    (n : ℕ) (kv : Kv) (rest : List ℕ)
    → IsLine kv
    → ztp_slice_eq kv.key (codes "module") ≡ false
    → ztp_slice_eq kv.key (codes "module-sealed") ≡ false
    → length (line_of kv ++ (10 ∷ rest)) ≤ n
    → module_loop n (line_of kv ++ (10 ∷ rest)) ≡ module_loop (length rest) rest
skip_loop zero kv rest h a b k = absurd (omega (arith, length-append (line_of kv) (10 ∷ rest)))
skip_loop (suc n) kv rest h a b k =
    loop_some n (line_of kv ++ (10 ∷ rest)) kv rest (kv_next_line_of kv rest h)
    ∙ rw (a, b)
        (loop_fuel n (length rest) rest (omega (arith, length-append (line_of kv) (10 ∷ rest)))
          (omega arith))

-- A record with another key is not a module.
pub next_module_skip :
    (kv : Kv) (rest : List ℕ)
    → IsLine kv
    → ztp_slice_eq kv.key (codes "module") ≡ false
    → ztp_slice_eq kv.key (codes "module-sealed") ≡ false
    → ztp_manifest_next_module (line_of kv ++ (10 ∷ rest)) ≡ ztp_manifest_next_module rest
unfolding ztp_manifest_next_module
next_module_skip kv rest h a b =
    skip_loop (length (line_of kv ++ (10 ∷ rest))) kv rest h a b (omega arith)

pub next_module_nil : ztp_manifest_next_module [] ≡ at_end
unfolding ztp_manifest_next_module
next_module_nil = loop_zero []
