-- ===== src/Store/Open.antt =====
-- internal/store/sqlite.go, `New`: how the database is opened and its tables are made.
use fileflow.Common.{Bool, Bytes, Option, ap, codes, inl, inr, some, ◌++◌, ◌↔◌, ◌≡◌, bytes_key}
use fileflow.Common.Result.{
  >>=-eq-ok, Result, Result-cases, err-ne-ok, ok, ok-inj, require, some_or, some_or-eq-ok, ◌>>=◌,
  ◌>>◌,
}
use fileflow.Store.{Database, Device, get_device}

pub data OpenError : Type 0 where
  open_failed ping_failed migrate_failed : OpenError

-- The name of the database as `New` gives it to the driver.
abbrev pub data_source : Bytes → Bytes
data_source path = path ++ codes "?_journal_mode=WAL&_busy_timeout=5000"

-- `sql.Open`, `Ping`, and `Exec` of the statements that make the tables.
pub record Driver (db : Database) : Type 0 where
  pub open_db : Bytes → Option db.State
  pub ping : db.State → Bool
  pub make_tables : db.State → Option db.State

-- `CREATE TABLE IF NOT EXISTS` leaves a table that is there as it is, and makes an empty one.
pub record DriverLaws (db : Database) (driver : Driver db) : Type 0 where
  pub keeps_devices :
      (s s' : db.State) (id : Bytes) (d : Device)
      → driver.make_tables s ≡ some s'
      → (db.select_device id s' ≡ ok d) ↔ (db.select_device id s ≡ ok d)
  pub keeps_config :
      (s s' : db.State) (key value : Bytes)
      → driver.make_tables s ≡ some s'
      → (db.select_config key s' ≡ ok value) ↔ (db.select_config key s ≡ ok value)

module _ (db : Database) (driver : Driver db) where
  unfoldable pub migrate : db.State → Option db.State
  migrate s = driver.make_tables s

  unfoldable pub new_store : Bytes → Result OpenError db.State
  unfolding migrate
  new_store path = do
    s ← some_or (driver.open_db (data_source path)) open_failed
    require (driver.ping s) ping_failed
    some_or (migrate s) migrate_failed

  device-row :
      (id : Bytes) (d : Device) (s : db.State)
      → (get_device db id s ≡ ok d) ↔ (db.select_device id s ≡ ok d)
  unfolding get_device
  device-row id d s = elim (Result-cases (db.select_device id s)) [
    | inl (x, f) ↦ rw (f, get_device) ((λ e. ap ok (ok-inj e)), λ e. ap ok (ok-inj e))
    | inr (x, f) ↦ rw (f, get_device) ((λ e. absurd (err-ne-ok e)), λ e. absurd (err-ne-ok e))
  ]

  -- A store that was opened holds the devices that the database file held, and no others: a restart
  -- of the server forgets no device and brings none back.
  pub new_store_devices :
      DriverLaws db driver
      → (path : Bytes) (s : db.State) → new_store path ≡ ok s
      → (file : db.State) × (driver.open_db (data_source path) ≡ some file)
        × ((id : Bytes) (d : Device) → (get_device db id s ≡ ok d) ↔ (get_device db id file ≡ ok d))
  unfolding new_store migrate
  new_store_devices laws path s e =
      let (file, e₁, r₁) =
        >>=-eq-ok (some_or (driver.open_db (data_source path)) open_failed) _ e in
      let (u, e₂, r₂) = >>=-eq-ok (require (driver.ping file) ping_failed) _ r₁ in
      let made : driver.make_tables file ≡ some s = some_or-eq-ok _ _ r₂ in
      (
        file,
        some_or-eq-ok _ _ e₁,
        λ id d.
            let (to_file, from_file) = laws.keeps_devices file s id d made in
            (
              λ q. (device-row id d file).1 (to_file ((device-row id d s).0 q)),
              λ q. (device-row id d s).1 (from_file ((device-row id d file).0 q)),
            ),
      )
