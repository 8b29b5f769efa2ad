-- ===== src/DeviceMetadata/Tables.antt =====
-- What the lines of one device table do in `parseConnexinToml` of src/server/device-metadata.ts.
use connexin.Prelude.{
  ℕ, suc, ◌≡◌, refl, ap, subst, ◌∙◌, false, List, [], ◌∷◌, ◌++◌, Option, none, some, append_assoc,
  if◌then◌else◌, codes, text_eq, text_eq_refl, or-false,
}
use connexin.Utf8.{Text}
use connexin.Toml.{strip_comment, split_equals}
use connexin.SessionManager.Session.{DeviceDanger, normal, caution, danger}
use connexin.SessionManager.Manager.{DeviceMetadata}
use connexin.DeviceMetadata.{
  parsed, TomlParse, no_metadata, has_device, update_device, field_change, open_device, parse_all,
}
use connexin.DeviceMetadata.Entries.{IsKey, entry_line, parse_line-entry_line, parse_line-header}
use connexin.DeviceMetadata.Rendered.{
  danger_text, option_line, danger_line, field_lines, device_lines,
}

update_device-last :
    (alias : Text) (f : DeviceMetadata → DeviceMetadata) (devices : List (Text × DeviceMetadata))
    (meta : DeviceMetadata)
    → has_device alias devices ≡ false
    → update_device alias f (devices ++ (alias, meta) ∷ []) ≡ devices ++ (alias, f meta) ∷ []
unfolding update_device has_device
update_device-last alias f [] meta h = rw (text_eq_refl alias) refl
update_device-last alias f ((a, m) ∷ devices) meta h =
    let (other, rest) = or-false {a = text_eq a alias} {b = has_device alias devices} h in
    rw (other) (ap (◌∷◌ (a, m)) (update_device-last alias f devices meta rest))

label-IsKey : IsKey b'l' (codes "abel")
unfolding strip_comment split_equals
label-IsKey = record {
  uncommented = λ t. refl;
  no_space = refl;
  no_bracket = refl;
  split = λ t. refl;
  trimmed = refl;
}

group-IsKey : IsKey b'g' (codes "roup")
unfolding strip_comment split_equals
group-IsKey = record {
  uncommented = λ t. refl;
  no_space = refl;
  no_bracket = refl;
  split = λ t. refl;
  trimmed = refl;
}

danger-IsKey : IsKey b'd' (codes "anger")
unfolding strip_comment split_equals
danger-IsKey = record {
  uncommented = λ t. refl;
  no_space = refl;
  no_bracket = refl;
  split = λ t. refl;
  trimmed = refl;
}

default_shell-IsKey : IsKey b'd' (codes "efault_shell")
unfolding strip_comment split_equals
default_shell-IsKey = record {
  uncommented = λ t. refl;
  no_space = refl;
  no_bracket = refl;
  split = λ t. refl;
  trimmed = refl;
}

-- One device: the alias is not empty, and the devices before it have others.
module _ (devices : List (Text × DeviceMetadata)) (c : ℕ) (alias : Text)
    (fresh : has_device (c ∷ alias) devices ≡ false) where
  -- The state of the parser in the table of the device.
  abbrev pub in_table : DeviceMetadata → TomlParse
  in_table meta = record {
    devices = devices ++ (c ∷ alias, meta) ∷ [];
    current_alias = some (c ∷ alias);
    in_runtime_table = false;
  }

  -- The lines lead from the one metadata to the other.
  abbrev LeadsTo : DeviceMetadata → DeviceMetadata → List Text → Type 0
  LeadsTo m m' lines =
      (n : ℕ) (rest : List Text)
      → (n' : ℕ) × (parse_all (parsed (in_table m)) n (lines ++ rest)
          ≡ parse_all (parsed (in_table m')) n' rest)

  none-LeadsTo : (m : DeviceMetadata) → LeadsTo m m []
  none-LeadsTo m n rest = (n, refl)

  append-LeadsTo :
      (m m' m'' : DeviceMetadata) (xs ys : List Text)
      → LeadsTo m m' xs
      → LeadsTo m' m'' ys
      → LeadsTo m m'' (xs ++ ys)
  append-LeadsTo m m' m'' xs ys f g n rest =
      let (k, e) = f n (ys ++ rest) in
      let (j, e') = g k rest in
      (j, ap (parse_all (parsed (in_table m)) n) (append_assoc xs ys rest) ∙ e ∙ e')

  entry-LeadsTo :
      (k : ℕ) (key value : Text) (m : DeviceMetadata) (change : DeviceMetadata → DeviceMetadata)
      → IsKey k key
      → ((n : ℕ) → field_change (k ∷ key) value n ≡ parsed change)
      → LeadsTo m (change m) (entry_line k key value ∷ [])
  unfolding parse_all
  entry-LeadsTo k key value m change is f n rest =
      let step =
        parse_line-entry_line k key is value n (in_table m) c alias change refl refl (f n)
        ∙ ap
            (λ ds.
              parsed (record {
                devices = ds;
                current_alias = some (c ∷ alias);
                in_runtime_table = false;
              }))
            (update_device-last (c ∷ alias) change devices m fresh) in
      (suc n, ap (λ r. parse_all r (suc n) rest) step)

  option-LeadsTo :
      (k : ℕ) (key : Text) (m : Option Text → DeviceMetadata)
      (change : Text → DeviceMetadata → DeviceMetadata)
      → IsKey k key
      → ((value : Text) (n : ℕ) → field_change (k ∷ key) value n ≡ parsed (change value))
      → ((value : Text) → change value (m none) ≡ m (some value))
      → (o : Option Text) → LeadsTo (m none) (m o) (option_line k key o)
  option-LeadsTo k key m change is f e none = none-LeadsTo (m none)
  option-LeadsTo k key m change is f e (some value) =
      subst (λ x. LeadsTo (m none) x (entry_line k key value ∷ [])) (e value)
        (entry-LeadsTo k key value (m none) (change value) is (f value))

  danger-LeadsTo :
      (m : DeviceMetadata) (o : Option DeviceDanger)
      → m.danger ≡ none
      → LeadsTo m (record m { danger = o }) (danger_line o)
  unfolding field_change
  danger-LeadsTo m none e = subst (λ x. LeadsTo m (record m { danger = x }) []) e (none-LeadsTo m)
  danger-LeadsTo m (some level) e =
      entry-LeadsTo b'd' (codes "anger") (danger_text level) m
        (λ x. record x { danger = some level }) danger-IsKey (of_level level)
    where
      of_level :
          (level : DeviceDanger) (n : ℕ)
          → field_change (codes "danger") (danger_text level) n
            ≡ parsed (λ x. record x { danger = some level })
      of_level normal n = refl
      of_level caution n = refl
      of_level danger n = refl

  fields-LeadsTo : (meta : DeviceMetadata) → LeadsTo no_metadata meta (field_lines meta)
  unfolding field_change
  fields-LeadsTo meta =
      let labelled : DeviceMetadata = record no_metadata { label = meta.label } in
      let grouped : DeviceMetadata = record labelled { group = meta.group } in
      let marked : DeviceMetadata = record grouped { danger = meta.danger } in
      append-LeadsTo no_metadata labelled meta _ _
        (option-LeadsTo b'l' (codes "abel") (λ o. record no_metadata { label = o })
          (λ value m. record m { label = some value }) label-IsKey (λ value n. refl) (λ value. refl)
          meta.label)
        (append-LeadsTo labelled grouped meta _ _
          (option-LeadsTo b'g' (codes "roup") (λ o. record labelled { group = o })
            (λ value m. record m { group = some value }) group-IsKey (λ value n. refl)
            (λ value. refl) meta.group)
          (append-LeadsTo grouped marked meta _ _ (danger-LeadsTo grouped meta.danger refl) (
            option-LeadsTo b'd' (codes "efault_shell") (λ o. record marked { default_shell = o })
              (λ value m. record m { default_shell = some value }) default_shell-IsKey
              (λ value n. refl) (λ value. refl) meta.default_shell)))

  pub device_lines_read :
      (meta : DeviceMetadata) (st : TomlParse) (n : ℕ) (rest : List Text)
      → st.devices ≡ devices
      → (n' : ℕ) × (parse_all (parsed st) n (device_lines (c ∷ alias) meta ++ rest)
          ≡ parse_all (parsed (in_table meta)) n' rest)
  unfolding parse_all
  device_lines_read meta st n rest e =
      let entry = (c ∷ alias, no_metadata) ∷ [] in
      let with_devices : List (Text × DeviceMetadata) → TomlParse =
        λ ds. record { devices = ds; current_alias = some (c ∷ alias); in_runtime_table = false } in
      let opened : open_device st (c ∷ alias) ≡ in_table no_metadata =
        ap (λ ds. with_devices (if has_device (c ∷ alias) ds then ds else ds ++ entry)) e
        ∙ ap (λ b. with_devices (if b then devices else devices ++ entry)) fresh in
      let (n', read) = fields-LeadsTo meta (suc n) rest in
      (
        n',
        ap (λ r. parse_all r (suc n) (field_lines meta ++ rest))
              (parse_line-header (c ∷ alias) n st ∙ ap parsed opened)
            ∙ read,
      )
