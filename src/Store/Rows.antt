-- ===== src/Store/Rows.antt =====
-- internal/store: what is stored is found again, and a device is enrolled once.
use fileflow.Common.{
  Bool-cases, Bytes, Option, ap, arith, bytes_beq, if◌then◌else◌, inl, inr, some, ℕ, ◌==◌, ◌∙◌, ◌≡◌,
  bytes_key,
}
use fileflow.Common.Result.{Result, Result-cases, err, ok}
use fileflow.Store.{
  Database, Device, StoreError, add_device, config_not_found, constraint_primary_key, delete_config,
  device_exists, failed, get_config, get_device, insert_error, no_rows, rows_deleted, set_config,
  sqlite_error,
}

-- The device id is the primary key: a row whose key is there is refused with SQLite's code for it,
-- one that is inserted is selected by its key and leaves the others alone, and a refused one leaves
-- all as it was. So for the configuration, where a row with the same key is replaced.
pub record DatabaseLaws (db : Database) : Type 0 where
  pub insert_twice :
      (d old : Device) (s : db.State)
      → db.select_device d.device_id s ≡ ok old
      → (db.insert_device d s).0 ≡ err (sqlite_error constraint_primary_key)
  pub select-insert :
      (d : Device) (id : Bytes) (s : db.State)
      → db.select_device id (db.insert_device d s).1 ≡ elim (db.insert_device d s).0 [
        | ok u ↦ if d.device_id == id then ok d else db.select_device id s
        | err e ↦ db.select_device id s
      ]
  pub select-upsert :
      (key value other : Bytes) (s : db.State)
      → db.select_config other (db.upsert_config key value s).1
        ≡ elim (db.upsert_config key value s).0 [
          | ok u ↦ if key == other then ok value else db.select_config other s
          | err e ↦ db.select_config other s
        ]
  pub select-delete :
      (key other : Bytes) (n : Option ℕ) (s : db.State)
      → (db.delete_config_row key s).0 ≡ ok n
      → db.select_config other (db.delete_config_row key s).1
        ≡ (if key == other then err no_rows else db.select_config other s)
  pub rows_affected :
      (key : Bytes) (s : db.State)
      → db.select_config key s ≡ err no_rows
      → (db.delete_config_row key s).0 ≡ ok (some 0)

module _ (db : Database) where
  abbrev pub found_after :
      Device → Bytes → db.State → Result StoreError (Unit {0}) → Result StoreError Device
  found_after d id s (ok u) = if d.device_id == id then ok d else get_device db id s
  found_after d id s (err e) = get_device db id s

  abbrev pub value_after :
      (key value other : Bytes) → db.State → Result StoreError (Unit {0}) → Result StoreError Bytes
  value_after key value other s (ok u) = if key == other then ok value else get_config db other s
  value_after key value other s (err e) = get_config db other s

module _ (db : Database) (laws : DatabaseLaws db) where
  -- A device that was added is found under its id, and every other lookup answers as before; a
  -- device that was not added changes no lookup.
  pub get_device-add_device :
      (d : Device) (id : Bytes) (s : db.State)
      → get_device db id (add_device db d s).1 ≡ found_after db d id s (add_device db d s).0
  unfolding get_device add_device
  get_device-add_device d id s = elim (Result-cases (db.insert_device d s).0) [
    | inl (u, e) ↦
        rw (get_device, laws.select-insert d id s, add_device, e)
          (elim (Bool-cases (bytes_beq d.device_id id)) [
            | inl same ↦ rw same
            | inr other ↦ rw other
          ])
    | inr (x, e) ↦ rw (get_device, laws.select-insert d id s, add_device, e)
  ]

  selected :
      (id : Bytes) (d : Device) (s : db.State)
      → get_device db id s ≡ ok d
      → db.select_device id s ≡ ok d
  unfolding get_device
  selected id d s e = elim (Result-cases (db.select_device id s)) [
    | inl (x, f) ↦ let same : x ≡ d = ground (arith, rw (f, get_device) at e) in f ∙ ap ok same
    | inr (x, f) ↦ cc (rw (f, get_device) at e)
  ]

  -- A device whose id is enrolled is refused as such, and nothing changes for any lookup.
  pub add_device_twice :
      (d old : Device) (id : Bytes) (s : db.State)
      → get_device db d.device_id s ≡ ok old
      → ((add_device db d s).0 ≡ err device_exists)
        × (get_device db id (add_device db d s).1 ≡ get_device db id s)
  unfolding get_device add_device insert_error
  add_device_twice d old id s found =
      let row : db.select_device d.device_id s ≡ ok old = selected d.device_id old s found in
      let refused = laws.insert_twice d old s row in
      (rw (add_device, refused), rw (get_device, laws.select-insert d id s, refused))

  unselected :
      (key : Bytes) (s : db.State)
      → get_config db key s ≡ err config_not_found
      → db.select_config key s ≡ err no_rows
  unfolding get_config
  unselected key s e = elim (Result-cases (db.select_config key s)) [
    | inl (x, f) ↦ cc (rw (f, get_config) at e)
    | inr (no_rows, f) ↦ f
    | inr (failed, f) ↦ cc (rw (f, get_config) at e)
  ]

  -- A value that was set is read back under its key, and every other key reads as before; a value
  -- that could not be set changes no key.
  get_config-set_config :
      (key value other : Bytes) (s : db.State)
      → get_config db other (set_config db key value s).1
        ≡ value_after db key value other s (set_config db key value s).0
  unfolding get_config set_config
  get_config-set_config key value other s = elim (Result-cases (db.upsert_config key value s).0) [
    | inl (u, e) ↦
        rw (get_config, laws.select-upsert key value other s, set_config, e)
          (elim (Bool-cases (bytes_beq key other)) [
            | inl same ↦ rw same
            | inr differs ↦ rw differs
          ])
    | inr (x, e) ↦ rw (get_config, laws.select-upsert key value other s, set_config, e)
  ]

  -- After a deletion that succeeds the key is not found, and every other key reads as before.
  pub get_config-delete_config :
      (key other : Bytes) (s : db.State)
      → (delete_config db key s).0 ≡ ok tt
      → get_config db other (delete_config db key s).1
        ≡ (if key == other then err config_not_found else get_config db other s)
  unfolding get_config delete_config rows_deleted
  get_config-delete_config key other s done = elim (Result-cases (db.delete_config_row key s).0) [
    | inl (n, e) ↦
        rw (get_config, laws.select-delete key other n s e)
          (elim (Bool-cases (bytes_beq key other)) [
            | inl same ↦ rw same
            | inr differs ↦ rw differs
          ])
    | inr (x, e) ↦ cc (rw (delete_config, e) at done)
  ]

  -- Deleting a key that is not there is reported as not found.
  pub delete_config_missing :
      (key : Bytes) (s : db.State)
      → get_config db key s ≡ err config_not_found
      → (delete_config db key s).0 ≡ err config_not_found
  unfolding get_config delete_config rows_deleted
  delete_config_missing key s missing =
      rw (delete_config, laws.rows_affected key s (unselected key s missing))
