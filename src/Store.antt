-- ===== src/Store.antt =====
-- internal/store: enrolled devices and configuration values in an SQLite database. The database is
-- a parameter: each SQL statement of the package is an operation, with its documented behaviour.
-- Open.antt opens it and makes the tables that `DatabaseLaws` speaks of.
pub mod Rows
pub mod Open
pub mod Sample
mod Tests
use fileflow.Common.{Bytes, Option, if◌then◌else◌, nat_beq, none, some, ℕ, ◌||◌}
use fileflow.Common.Result.{Result, err, ok}

pub record Device : Type 0 where
  pub device_id : Bytes
  pub pub_jwk_json : Bytes
  pub label : Bytes
  pub created_at : ℕ

-- An error of the driver, with SQLite's code if it is one of SQLite's.
pub data DbError : Type 0 where
  sqlite_error : ℕ → DbError
  other_error : DbError

pub data QueryError : Type 0 where
  no_rows : QueryError
  failed : QueryError

abbrev pub constraint_primary_key : ℕ
constraint_primary_key = 1555

abbrev pub constraint_unique : ℕ
constraint_unique = 2067

pub record Database : Type 1 where
  pub State : Type 0
  pub insert_device : Device → State → Result DbError (Unit {0}) × State
  pub select_device : Bytes → State → Result QueryError Device
  pub select_config : Bytes → State → Result QueryError Bytes
  pub upsert_config : (key value : Bytes) → State → Result DbError (Unit {0}) × State
  -- The number of rows that were deleted, or that it could not be found out.
  pub delete_config_row : Bytes → State → Result DbError (Option ℕ) × State

pub data StoreError : Type 0 where
  device_exists device_not_found config_not_found store_failed : StoreError

module _ (db : Database) where
  unfoldable pub insert_error : DbError → StoreError
  insert_error (sqlite_error code) =
      if nat_beq code constraint_primary_key || nat_beq code constraint_unique
      then device_exists
      else store_failed
  insert_error other_error = store_failed

  unfoldable pub add_device : Device → db.State → Result StoreError (Unit {0}) × db.State
  unfolding insert_error
  add_device d s =
      let (r, s') = db.insert_device d s in
      (elim r [ ok u ↦ ok tt | err e ↦ err (insert_error e) ], s')

  unfoldable pub get_device : Bytes → db.State → Result StoreError Device
  get_device id s = elim (db.select_device id s) [
    | ok d ↦ ok d
    | err e ↦ err (elim e [ no_rows ↦ device_not_found | failed ↦ store_failed ])
  ]

  unfoldable pub get_config : Bytes → db.State → Result StoreError Bytes
  get_config key s = elim (db.select_config key s) [
    | ok v ↦ ok v
    | err e ↦ err (elim e [ no_rows ↦ config_not_found | failed ↦ store_failed ])
  ]

  unfoldable pub set_config :
      (key value : Bytes) → db.State → Result StoreError (Unit {0}) × db.State
  set_config key value s =
      let (r, s') = db.upsert_config key value s in
      (elim r [ ok u ↦ ok tt | err e ↦ err store_failed ], s')

  -- What `DeleteConfig` makes of the number of rows.
  unfoldable pub rows_deleted : Option ℕ → Result StoreError (Unit {0})
  rows_deleted none = err store_failed
  rows_deleted (some n) = if nat_beq n 0 then err config_not_found else ok tt

  unfoldable pub delete_config : Bytes → db.State → Result StoreError (Unit {0}) × db.State
  unfolding rows_deleted
  delete_config key s =
      let (r, s') = db.delete_config_row key s in
      (elim r [ ok n ↦ rows_deleted n | err e ↦ err store_failed ], s')
