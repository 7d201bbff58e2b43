-- ===== src/Store/Sample.antt =====
-- A database that is kept in two lists and never fails. It meets the laws.
use fileflow.Common.{
  Bytes, List, Option, ap, arith, delete, if◌then◌else◌, lookup, lookup-delete, lookup-put, none,
  put, refl, some, true, ℕ, ◌==◌, ◌≡◌, bytes_key,
}
use fileflow.Common.Result.{Result, err, ok}
use fileflow.Store.{
  Database, DbError, Device, QueryError, constraint_primary_key, no_rows, sqlite_error,
}
use fileflow.Store.Rows.{DatabaseLaws}
use fileflow.Store.Open.{Driver, DriverLaws}

pub record Tables : Type 0 where
  pub devices : List (Bytes × Device)
  pub config : List (Bytes × Bytes)

abbrev pub or_no_rows : {A : Type 0} → Option A → Result QueryError A
or_no_rows none = err no_rows
or_no_rows (some a) = ok a

abbrev add_row : Device → Tables → Option Device → Result DbError (Unit {0}) × Tables
add_row d t none = (ok tt, record t { devices = put d.device_id d t.devices })
add_row d t (some old) = (err (sqlite_error constraint_primary_key), t)

abbrev rows_in : Option Bytes → ℕ
rows_in none = 0
rows_in (some v) = 1

abbrev pub in_memory : Database
in_memory = record {
  State = Tables;
  insert_device = λ d t. add_row d t (lookup d.device_id t.devices);
  select_device = λ id t. or_no_rows (lookup id t.devices);
  select_config = λ key t. or_no_rows (lookup key t.config);
  upsert_config = λ key value t. (ok tt, record t { config = put key value t.config });
  delete_config_row = λ key t.
      (ok (some (rows_in (lookup key t.config))), record t { config = delete key t.config });
}

add_row_select :
    (d : Device) (id : Bytes) (t : Tables) (o : Option Device)
    → or_no_rows (lookup id (add_row d t o).1.devices) ≡ elim (add_row d t o).0 [
      | ok u ↦ if d.device_id == id then ok d else or_no_rows (lookup id t.devices)
      | err e ↦ or_no_rows (lookup id t.devices)
    ]
add_row_select d id t none = rw lookup-put (ground arith)
add_row_select d id t (some old) = refl

in_memory-insert_twice :
    (d old : Device) (t : Tables) (o : Option Device)
    → or_no_rows o ≡ ok old
    → (add_row d t o).0 ≡ err (sqlite_error constraint_primary_key)
in_memory-insert_twice d old t none e = cc
in_memory-insert_twice d old t (some x) e = refl

rows_in_none : (o : Option Bytes) → or_no_rows o ≡ err no_rows → rows_in o ≡ 0
rows_in_none none e = refl
rows_in_none (some v) e = cc

pub in_memory-DatabaseLaws : DatabaseLaws in_memory
in_memory-DatabaseLaws = record {
  insert_twice = λ d old t e. in_memory-insert_twice d old t (lookup d.device_id t.devices) e;
  select-insert = λ d id t. add_row_select d id t (lookup d.device_id t.devices);
  select-upsert = λ key value other t. rw lookup-put (ground arith);
  select-delete = λ key other n t e. rw lookup-delete (ground arith);
  rows_affected = λ key t e. ap (λ n. ok (some n)) (rows_in_none (lookup key t.config) e);
}

-- A file with these tables, under any name.
abbrev pub file_of : Tables → Driver in_memory
file_of t = record { open_db = λ path. some t; ping = λ s. true; make_tables = λ s. some s }

pub file_of-DriverLaws : (t : Tables) → DriverLaws in_memory (file_of t)
file_of-DriverLaws t = record {
  keeps_devices = λ s s' id d e. let same : s ≡ s' = cc in rw same ((λ q. q), λ q. q);
  keeps_config = λ s s' key value e. let same : s ≡ s' = cc in rw same ((λ q. q), λ q. q);
}
