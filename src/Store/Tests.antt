-- ===== src/Store/Tests.antt =====
-- Runs of internal/store on the sample database.
use fileflow.Common.{[], codes, lookup, refl, ◌∷◌, ◌≡◌, bytes_key}
use fileflow.Common.Result.{err, ok}
use fileflow.Store.{Device, config_not_found, delete_config, get_config, get_device}
use fileflow.Store.Rows.{delete_config_missing, get_config-delete_config}
use fileflow.Store.Sample.{Tables, in_memory, in_memory-DatabaseLaws}

abbrev phone : Device
phone = record {
  device_id = codes "device-0001";
  pub_jwk_json = codes "jwk";
  label = codes "phone";
  created_at = 1;
}

abbrev tables : Tables
tables = record {
  devices = (codes "device-0001", phone) ∷ [];
  config = (codes "secret_hash", codes "h") ∷ [];
}

finds_phone : get_device in_memory (codes "device-0001") tables ≡ ok phone
unfolding get_device lookup
finds_phone = refl

deletes_hash : (delete_config in_memory (codes "secret_hash") tables).0 ≡ ok tt
unfolding delete_config lookup
deletes_hash = refl

get_config-delete_config_example :
    get_config in_memory
      (codes "secret_hash")
      (delete_config in_memory (codes "secret_hash") tables).1
    ≡ err config_not_found
get_config-delete_config_example =
    get_config-delete_config in_memory in_memory-DatabaseLaws (codes "secret_hash")
      (codes "secret_hash") tables deletes_hash

delete_config_missing_example :
    (delete_config in_memory (codes "k") tables).0 ≡ err config_not_found
unfolding get_config lookup
delete_config_missing_example =
    delete_config_missing in_memory in_memory-DatabaseLaws (codes "k") tables refl
