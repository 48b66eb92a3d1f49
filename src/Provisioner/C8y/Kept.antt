-- ===== src/Provisioner/C8y/Kept.antt =====
-- What is kept in the settings across the hand-off.
use microcontroller_devices.Prelude.{ℕ}
use microcontroller_devices.Prelude.{if◌then◌else◌}
use microcontroller_devices.Prelude.{◌≡◌, ◌≢◌, refl, ap, ◌∙◌, ◌⊎◌, inl, inr}
use microcontroller_devices.Prelude.{Bool, true, false}
use microcontroller_devices.Prelude.{Option, none, some, List}
use microcontroller_devices.Ztp.Errors.{Errno, Rc, is_ok}
use microcontroller_devices.Ztp.Apply.C8y.{ProvC8y, empty_string}
use microcontroller_devices.Provisioner.C8y.{
  Field, f_url, f_tenant, f_external_id, f_otp, c8y_field, Settings, until_nul, url_to_host,
  store_field, prov_c8y_store, prov_c8y_load, prov_c8y_clear, handoff_otp, clear_if,
  prov_c8y_handoff,
}

-- The documented behaviour of the settings store.
pub record IsStore {S : Type 0} (z : Settings S) : Type 0 where
  pub saved :
      (s : S) (f : Field) (v : List ℕ)
      → is_ok (z.save_one s f v).0 ≡ true
      → z.load_key (z.save_one s f v).1 f ≡ some v
  pub saved_other :
      (s : S) (f g : Field) (v : List ℕ)
      → f ≢ g
      → z.load_key (z.save_one s f v).1 g ≡ z.load_key s g
  pub deleted :
      (s : S) (f : Field) → is_ok (z.delete s f).0 ≡ true → z.load_key (z.delete s f).1 f ≡ none
  pub deleted_other : (s : S) (f g : Field) → f ≢ g → z.load_key (z.delete s f).1 g ≡ z.load_key s g

module _ {S : Type 0} (z : Settings S) (lawful : IsStore z) where
  -- The stores behind the deletion of the URL and of the tenant.
  abbrev pub without_url : S → S
  without_url s = (z.delete s f_url).1

  abbrev pub without_tenant : S → S
  without_tenant s = (z.delete (without_url s) f_tenant).1

  -- A key behind its deletion, which returned `rc`: it is gone, or the deletion failed.
  abbrev pub GoneOrFailed : Rc → Option (List ℕ) → Type 0
  GoneOrFailed rc o = (is_ok rc ≡ false) ⊎ (o ≡ none)

  deletion : (s : S) (f : Field) → GoneOrFailed (z.delete s f).0 (z.load_key (z.delete s f).1 f)
  deletion s f = cases (is_ok (z.delete s f).0) refl
    where
      cases :
          (b : Bool)
          → is_ok (z.delete s f).0 ≡ b
          → GoneOrFailed (z.delete s f).0 (z.load_key (z.delete s f).1 f)
      cases true e = inr (lawful.deleted s f e)
      cases false e = inl e

  kept_gone : (rc : Rc) (o o' : Option (List ℕ)) → o' ≡ o → GoneOrFailed rc o → GoneOrFailed rc o'
  kept_gone rc o o' e (inl h) = inl h
  kept_gone rc o o' e (inr h) = inr (e ∙ h)

  -- What `prov_c8y_clear` makes of a store.
  pub record Cleared (s s' : S) : Type 0 where
    pub url : GoneOrFailed (z.delete s f_url).0 (z.load_key s' f_url)
    pub tenant : GoneOrFailed (z.delete (without_url s) f_tenant).0 (z.load_key s' f_tenant)
    pub otp : GoneOrFailed (z.delete (without_tenant s) f_otp).0 (z.load_key s' f_otp)
    pub external_id : z.load_key s' f_external_id ≡ z.load_key s f_external_id

  cleared : (s : S) → Cleared s (prov_c8y_clear z s)
  unfolding prov_c8y_clear
  cleared s =
      let a = without_url s in
      let b = without_tenant s in
      record {
        url =
            kept_gone _ _ _
              (lawful.deleted_other b f_otp f_url (λ e. cc)
                ∙ lawful.deleted_other a f_tenant f_url (λ e. cc))
              (deletion s f_url);
        tenant =
            kept_gone _ _ _ (lawful.deleted_other b f_otp f_tenant (λ e. cc)) (deletion a f_tenant);
        otp = deletion b f_otp;
        external_id =
            lawful.deleted_other b f_otp f_external_id (λ e. cc)
            ∙ lawful.deleted_other a f_tenant f_external_id (λ e. cc)
            ∙ lawful.deleted_other s f_url f_external_id (λ e. cc);
      }

  -- A field that a setter of the client took over, if it is not empty.
  abbrev pub TakenOver : (List ℕ → Rc) → List ℕ → List ℕ → Type 0
  TakenOver set field text = (empty_string field ≡ true) ⊎ (set text ≡ none)

  -- The hand-off of the data `c`: taken over, or everything kept.
  pub data HandedOff (set_url set_otp : List ℕ → Rc) (c : ProvC8y) (s : S) : Rc → S → Type 0 where
    taken :
        (s' : S)
        → TakenOver set_url c.url (url_to_host (until_nul c.url))
        → TakenOver set_otp c.otp (until_nul c.otp)
        → Cleared s s'
        → HandedOff set_url set_otp c s none s'
    url_refused :
        (e : Errno)
        → set_url (url_to_host (until_nul c.url)) ≡ some e
        → HandedOff set_url set_otp c s (some e) s
    otp_refused :
        (e : Errno)
        → TakenOver set_url c.url (url_to_host (until_nul c.url))
        → set_otp (until_nul c.otp) ≡ some e
        → HandedOff set_url set_otp c s (some e) s

  -- The hand-off of data that `prov_c8y_load` finds has three ends. It returns 0: the client took
  -- over the host of the URL and the one-time password, as far as they are not empty, and URL,
  -- tenant and one-time password are each gone unless the deletion of that key failed, with the
  -- external ID as it was. The client refuses the host, or takes it over and refuses the password:
  -- the error is returned and the settings are as they were. The store behaves as documented.
  pub prov_c8y_handoff-HandedOff :
      (set_url set_otp : List ℕ → Rc) (s : S)
      → (prov_c8y_load z s).0 ≡ true
      → HandedOff set_url set_otp
          (prov_c8y_load z s).1
          s
          (prov_c8y_handoff z set_url set_otp s).0
          (prov_c8y_handoff z set_url set_otp s).1
  unfolding prov_c8y_handoff
  prov_c8y_handoff-HandedOff set_url set_otp s found =
      rw found (url_cases (empty_string c.url) (set_url (url_to_host (until_nul c.url))) refl refl)
    where
      c : ProvC8y
      c = (prov_c8y_load z s).1

      otp_cases :
          (b : Bool) (o : Rc)
          → empty_string c.otp ≡ b
          → set_otp (until_nul c.otp) ≡ o
          → TakenOver set_url c.url (url_to_host (until_nul c.url))
          → (let r = clear_if z (if b then none else o) s in HandedOff set_url set_otp c s r.0 r.1)
      otp_cases true o e h u = taken (prov_c8y_clear z s) u (inl e) (cleared s)
      otp_cases false none e h u = taken (prov_c8y_clear z s) u (inr h) (cleared s)
      otp_cases false (some x) e h u = otp_refused x u h

      url_cases :
          (b : Bool) (o : Rc)
          → empty_string c.url ≡ b
          → set_url (url_to_host (until_nul c.url)) ≡ o
          → (let r = clear_if z (handoff_otp z set_otp (if b then none else o) c) s in
              HandedOff set_url set_otp c s r.0 r.1)
      url_cases true o e h =
          otp_cases (empty_string c.otp) (set_otp (until_nul c.otp)) refl refl (inl e)
      url_cases false none e h =
          otp_cases (empty_string c.otp) (set_otp (until_nul c.otp)) refl refl (inr h)
      url_cases false (some x) e h = url_refused x h

  -- What a key holds behind a store of the field.
  abbrev pub stored_value : ProvC8y → S → Field → Option (List ℕ)
  stored_value c s f =
      if empty_string (c8y_field f c) then z.load_key s f else some (until_nul (c8y_field f c))

  store_this :
      (c : ProvC8y) (r : Rc × S) (f : Field)
      → is_ok (store_field z c r f).0 ≡ true
      → z.load_key (store_field z c r f).1 f ≡ stored_value c r.1 f
  store_this c (some e, s) f h = cc
  store_this c (none, s) f h = cases (empty_string (c8y_field f c)) h
    where
      cases :
          (b : Bool)
          → (let r : Rc × S = if b then (none, s) else z.save_one s f (until_nul (c8y_field f c)) in
              is_ok r.0 ≡ true)
          → (let r : Rc × S = if b then (none, s) else z.save_one s f (until_nul (c8y_field f c)) in
              z.load_key r.1 f ≡ (if b then z.load_key s f else some (until_nul (c8y_field f c))))
      cases true h = refl
      cases false h = lawful.saved s f (until_nul (c8y_field f c)) h

  store_other :
      (c : ProvC8y) (r : Rc × S) (f g : Field)
      → f ≢ g
      → z.load_key (store_field z c r f).1 g ≡ z.load_key r.1 g
  store_other c (some e, s) f g h = refl
  store_other c (none, s) f g h = cases (empty_string (c8y_field f c))
    where
      cases :
          (b : Bool)
          → (let r : Rc × S = if b then (none, s) else z.save_one s f (until_nul (c8y_field f c)) in
              z.load_key r.1 g ≡ z.load_key s g)
      cases true = refl
      cases false = lawful.saved_other s f g (until_nul (c8y_field f c)) h

  ok_before :
      (c : ProvC8y) (r : Rc × S) (f : Field)
      → is_ok (store_field z c r f).0 ≡ true
      → is_ok r.0 ≡ true
  ok_before c (some e, s) f h = h
  ok_before c (none, s) f h = refl

  abbrev value_at : ProvC8y → Field → Option (List ℕ) → Option (List ℕ)
  value_at c f o = if empty_string (c8y_field f c) then o else some (until_nul (c8y_field f c))

  abbrev with_url : ProvC8y → S → Rc × S
  with_url c s = store_field z c (none, s) f_url

  abbrev with_tenant : ProvC8y → S → Rc × S
  with_tenant c s = store_field z c (with_url c s) f_tenant

  abbrev with_id : ProvC8y → S → Rc × S
  with_id c s = store_field z c (with_tenant c s) f_external_id

  all_stored :
      (c : ProvC8y) (s : S)
      → is_ok (store_field z c (with_id c s) f_otp).0 ≡ true
      → (f : Field) → z.load_key (store_field z c (with_id c s) f_otp).1 f ≡ stored_value c s f
  all_stored c s h f_url =
      store_other c (with_id c s) f_otp f_url (λ e. cc)
      ∙ store_other c (with_tenant c s) f_external_id f_url (λ e. cc)
      ∙ store_other c (with_url c s) f_tenant f_url (λ e. cc)
      ∙ store_this c (none, s) f_url
          (ok_before c (with_url c s) f_tenant
            (ok_before c (with_tenant c s) f_external_id (ok_before c (with_id c s) f_otp h)))
  all_stored c s h f_tenant =
      store_other c (with_id c s) f_otp f_tenant (λ e. cc)
      ∙ store_other c (with_tenant c s) f_external_id f_tenant (λ e. cc)
      ∙ store_this c (with_url c s) f_tenant
          (ok_before c (with_tenant c s) f_external_id (ok_before c (with_id c s) f_otp h))
      ∙ ap (value_at c f_tenant) (store_other c (none, s) f_url f_tenant (λ e. cc))
  all_stored c s h f_external_id =
      store_other c (with_id c s) f_otp f_external_id (λ e. cc)
      ∙ store_this c (with_tenant c s) f_external_id (ok_before c (with_id c s) f_otp h)
      ∙ ap (value_at c f_external_id) (
          store_other c (with_url c s) f_tenant f_external_id (λ e. cc)
          ∙ store_other c (none, s) f_url f_external_id (λ e. cc))
  all_stored c s h f_otp =
      store_this c (with_id c s) f_otp h
      ∙ ap (value_at c f_otp) (
          store_other c (with_tenant c s) f_external_id f_otp (λ e. cc)
          ∙ store_other c (with_url c s) f_tenant f_otp (λ e. cc)
          ∙ store_other c (none, s) f_url f_otp (λ e. cc))

  -- If `prov_c8y_store` returns 0, every key holds the field's text up to its first NUL if the
  -- field is not empty, and what it held before otherwise, over a settings store that behaves as
  -- documented.
  pub prov_c8y_store-stored_value :
      (c : ProvC8y) (s : S)
      → is_ok (prov_c8y_store z c s).0 ≡ true
      → (f : Field) → z.load_key (prov_c8y_store z c s).1 f ≡ stored_value c s f
  unfolding prov_c8y_store
  prov_c8y_store-stored_value c s h = cases (z.subsys_init s) h
    where
      run : Rc → Rc × S
      run none = store_field z c (with_id c s) f_otp
      run (some e) = (some e, s)

      cases :
          (o : Rc)
          → is_ok (run o).0 ≡ true
          → (f : Field) → z.load_key (run o).1 f ≡ stored_value c s f
      cases none h = all_stored c s h
      cases (some e) h = cc
