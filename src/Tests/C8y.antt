-- ===== src/Tests/C8y.antt =====
-- The Cumulocity settings over a small store.
use microcontroller_devices.Prelude.{ℕ}
use microcontroller_devices.Prelude.{◌≡◌, ◌≢◌, refl}
use microcontroller_devices.Prelude.{true}
use microcontroller_devices.Prelude.{Option, none, some, List}
use microcontroller_devices.Prelude.Text.{codes}
use microcontroller_devices.Ztp.Errors.{Rc, is_ok}
use microcontroller_devices.Ztp.Apply.C8y.{ProvC8y, c8y_reset}
use microcontroller_devices.Provisioner.C8y.{
  Field, f_url, f_tenant, f_external_id, f_otp, Settings, prov_c8y_store, prov_c8y_load,
  prov_c8y_handoff, load_cb,
}
use microcontroller_devices.Provisioner.C8y.Kept.{
  IsStore, HandedOff, stored_value, prov_c8y_store-stored_value, prov_c8y_handoff-HandedOff,
}

-- A store is what each key holds.
abbrev Store : Type 0
Store = Field → Option (List ℕ)

abbrev put : Store → Field → Option (List ℕ) → Store
put s f_url v f_url = v
put s f_url v f_tenant = s f_tenant
put s f_url v f_external_id = s f_external_id
put s f_url v f_otp = s f_otp
put s f_tenant v f_url = s f_url
put s f_tenant v f_tenant = v
put s f_tenant v f_external_id = s f_external_id
put s f_tenant v f_otp = s f_otp
put s f_external_id v f_url = s f_url
put s f_external_id v f_tenant = s f_tenant
put s f_external_id v f_external_id = v
put s f_external_id v f_otp = s f_otp
put s f_otp v f_url = s f_url
put s f_otp v f_tenant = s f_tenant
put s f_otp v f_external_id = s f_external_id
put s f_otp v f_otp = v

abbrev settings : Settings Store
settings = record {
  subsys_init = λ s. none;
  save_one = λ s f v. (none, put s f (some v));
  load_key = λ s f. s f;
  delete = λ s f. (none, put s f none);
}

put_here : (s : Store) (f : Field) (v : Option (List ℕ)) → put s f v f ≡ v
put_here s f_url v = refl
put_here s f_tenant v = refl
put_here s f_external_id v = refl
put_here s f_otp v = refl

put_elsewhere : (s : Store) (f g : Field) (v : Option (List ℕ)) → f ≢ g → put s f v g ≡ s g
put_elsewhere s f_url f_url v h = absurd (h refl)
put_elsewhere s f_url f_tenant v h = refl
put_elsewhere s f_url f_external_id v h = refl
put_elsewhere s f_url f_otp v h = refl
put_elsewhere s f_tenant f_url v h = refl
put_elsewhere s f_tenant f_tenant v h = absurd (h refl)
put_elsewhere s f_tenant f_external_id v h = refl
put_elsewhere s f_tenant f_otp v h = refl
put_elsewhere s f_external_id f_url v h = refl
put_elsewhere s f_external_id f_tenant v h = refl
put_elsewhere s f_external_id f_external_id v h = absurd (h refl)
put_elsewhere s f_external_id f_otp v h = refl
put_elsewhere s f_otp f_url v h = refl
put_elsewhere s f_otp f_tenant v h = refl
put_elsewhere s f_otp f_external_id v h = refl
put_elsewhere s f_otp f_otp v h = absurd (h refl)

settings-IsStore : IsStore settings
settings-IsStore = record {
  saved = λ s f v h. put_here s f (some v);
  saved_other = λ s f g v h. put_elsewhere s f g (some v) h;
  deleted = λ s f h. put_here s f none;
  deleted_other = λ s f g h. put_elsewhere s f g none h;
}

abbrev blank : Store
blank f = none

abbrev issued : ProvC8y
issued = record c8y_reset { url = codes "example.com"; otp = codes "secret" }

abbrev full : Store
full f_url = some (codes "example.com")
full f_tenant = none
full f_external_id = some (codes "d1")
full f_otp = some (codes "secret")

issued_stored : is_ok (prov_c8y_store settings issued blank).0 ≡ true
unfolding prov_c8y_store
issued_stored = refl

prov_c8y_store-stored_value_example :
    (prov_c8y_store settings issued blank).1 f_otp
    ≡ stored_value settings settings-IsStore issued blank f_otp
prov_c8y_store-stored_value_example =
    prov_c8y_store-stored_value settings settings-IsStore issued blank issued_stored f_otp

full_found : (prov_c8y_load settings full).0 ≡ true
unfolding prov_c8y_load load_cb
full_found = refl

abbrev accepts : List ℕ → Rc
accepts text = none

prov_c8y_handoff-HandedOff_example :
    HandedOff settings settings-IsStore accepts accepts
      (prov_c8y_load settings full).1
      full
      (prov_c8y_handoff settings accepts accepts full).0
      (prov_c8y_handoff settings accepts accepts full).1
prov_c8y_handoff-HandedOff_example =
    prov_c8y_handoff-HandedOff settings settings-IsStore accepts accepts full full_found
