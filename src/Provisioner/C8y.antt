-- ===== src/Provisioner/C8y.antt =====
-- lib/common/prov_c8y.c: the Cumulocity settings that the provisioner leaves for the application.
pub mod Kept
use microcontroller_devices.Prelude.{ℕ, zero, suc, ◌+◌, ◌-◌, ◌*◌, ◌/◌, ◌%◌, ◌^◌, ◌≤◌, ◌<◌}
use microcontroller_devices.Prelude.{ltb, leb, ◌==◌, if◌then◌else◌, ltb→lt, lt→ltb, leb→le, ==_iff}
use microcontroller_devices.Prelude.{◌≡◌, ◌≢◌, refl, sym, ap, ap₂, ◌∙◌, arith, ◌⊎◌, inl, inr, ◌↔◌}
use microcontroller_devices.Prelude.{Bool, true, false, ◌&&◌, ◌||◌, not, Bool-cases, Option-cases}
use microcontroller_devices.Prelude.{
  Option, none, some, List, [], ◌∷◌, ◌++◌, append-nil, append_assoc,
}
use microcontroller_devices.Prelude.{reverse, length, length-append, take, drop, All, All-append}
use microcontroller_devices.Prelude.{get_elem?, get_or, set, length-set}
use microcontroller_devices.Prelude.Text.{codes, text_eq, split_first}
use microcontroller_devices.Ztp.Errors.{Errno, Rc, is_ok}
use microcontroller_devices.Ztp.Apply.C8y.{ProvC8y, c8y_reset, empty_string}

-- The table `fields`; a key is `prov/c8y/` and the field's name.
pub data Field : Type 0 where
  f_url : Field
  f_tenant : Field
  f_external_id : Field
  f_otp : Field

abbrev pub field_size : Field → ℕ
field_size f_url = 128
field_size f_tenant = 32
field_size f_external_id = 64
field_size f_otp = 65

abbrev pub c8y_field : Field → ProvC8y → List ℕ
c8y_field f_url c = c.url
c8y_field f_tenant c = c.tenant
c8y_field f_external_id c = c.external_id
c8y_field f_otp c = c.otp

-- Zephyr's settings over a state of the store `S`: the codes of `settings_subsys_init`,
-- `settings_save_one` and `settings_delete`, the store behind them, and the value that `settings_load_subtree_direct`
-- hands to the callback for a key.
pub record Settings (S : Type 0) : Type 0 where
  pub subsys_init : S → Rc
  pub save_one : S → Field → List ℕ → Rc × S
  pub load_key : S → Field → Option (List ℕ)
  pub delete : S → Field → Rc × S

-- The bytes in front of the first NUL: `strlen`.
unfoldable pub until_nul : List ℕ → List ℕ
until_nul [] = []
until_nul (c ∷ s) = let rest = until_nul s in if c == 0 then [] else c ∷ rest

-- `load_cb`: a value that does not fit is ignored.
unfoldable pub load_cb : Field → Option (List ℕ) → List ℕ
load_cb f none = []
load_cb f (some v) = if leb (field_size f) (length v) then [] else v

-- `strstr(url, "://")`: what follows the first one.
unfoldable pub behind_scheme : List ℕ → Option (List ℕ)
behind_scheme [] = none
behind_scheme (c ∷ s) =
    let rest = behind_scheme s in
    if text_eq (take 3 (c ∷ s)) (codes "://") then some (drop 2 s) else rest

abbrev pub or_else : Option (List ℕ) → List ℕ → List ℕ
or_else none s = s
or_else (some t) s = t

abbrev pub before_split : Option (List ℕ × List ℕ) → List ℕ → List ℕ
before_split none s = s
before_split (some (pre, post)) s = pre

unfoldable pub url_to_host : List ℕ → List ℕ
url_to_host url =
    let rest = or_else (behind_scheme url) url in before_split (split_first 47 rest) rest

module _ {S : Type 0} (z : Settings S) where
  abbrev pub store_field : ProvC8y → Rc × S → Field → Rc × S
  store_field c (some e, s) f = (some e, s)
  store_field c (none, s) f =
      if empty_string (c8y_field f c) then (none, s) else z.save_one s f (until_nul (c8y_field f c))

  unfoldable pub prov_c8y_store : ProvC8y → S → Rc × S
  prov_c8y_store c s = elim (z.subsys_init s) [
    | some e ↦ (some e, s)
    | none ↦
        store_field c
          (store_field c (store_field c (store_field c (none, s) f_url) f_tenant) f_external_id)
          f_otp
  ]

  abbrev pub loaded : S → ProvC8y
  loaded s = record {
    url = load_cb f_url (z.load_key s f_url);
    tenant = load_cb f_tenant (z.load_key s f_tenant);
    external_id = load_cb f_external_id (z.load_key s f_external_id);
    otp = load_cb f_otp (z.load_key s f_otp);
  }

  -- `false` is -ENOENT.
  unfoldable pub prov_c8y_load : S → Bool × ProvC8y
  prov_c8y_load s =
      if is_ok (z.subsys_init s)
      then (not (empty_string (loaded s).url) || not (empty_string (loaded s).otp), loaded s)
      else (false, c8y_reset)

  -- The codes of the deletions are not looked at.
  unfoldable pub prov_c8y_clear : S → S
  prov_c8y_clear s =
      let (_, a) = z.delete s f_url in
      let (_, b) = z.delete a f_tenant in let (_, c) = z.delete b f_otp in c

  -- `none` is -ENOENT; the result of `prov_c8y_load` is not looked at.
  unfoldable pub prov_c8y_external_id : S → ℕ → Option (List ℕ)
  prov_c8y_external_id s size =
      let id = until_nul (prov_c8y_load s).1.external_id in
      if length id == 0 || leb size (length id) then none else some id

  -- The client's setters; the second argument of `handoff_otp` is the code so far.
  abbrev pub handoff_url : (List ℕ → Rc) → ProvC8y → Rc
  handoff_url set_url c =
      if empty_string c.url then none else set_url (url_to_host (until_nul c.url))

  abbrev pub handoff_otp : (List ℕ → Rc) → Rc → ProvC8y → Rc
  handoff_otp set_otp (some e) c = some e
  handoff_otp set_otp none c = if empty_string c.otp then none else set_otp (until_nul c.otp)

  abbrev pub clear_if : Rc → S → Rc × S
  clear_if none s = (none, prov_c8y_clear s)
  clear_if (some e) s = (some e, s)

  unfoldable pub prov_c8y_handoff : (set_url set_otp : List ℕ → Rc) → S → Rc × S
  prov_c8y_handoff set_url set_otp s =
      let (found, c) = prov_c8y_load s in
      if found then clear_if (handoff_otp set_otp (handoff_url set_url c) c) s else (none, s)
