-- ===== src/Scripts.antt =====
-- scripts/gen_hash.go and scripts/hash_secret.go: the programs that print a hash to configure the
-- server with. Each is a function of its arguments (the program's name first) and the random bytes
-- that it reads, or that it could not read them.
mod Tests
use fileflow.Common.{
  Bytes, List, Option, [], ap, codes, get_or, none, replicate, some, ℕ, ◌++◌, ◌↔◌, ◌∷◌, ◌≡◌,
  bytes_key,
}
use fileflow.Common.Result.{ok, ok-inj}
use fileflow.Auth.Platform.{Platform, PlatformLaws}
use fileflow.Auth.Secret.{
  argon_key_len, argon_memory, argon_threads, argon_time, encode, hash_secret, verify_secret,
  verify_secret-hash_secret,
}

-- What a program prints, and its exit status.
pub record Printed : Type 0 where
  pub out : Bytes
  pub err_out : Bytes
  pub status : ℕ

abbrev pub prints : Bytes → Printed
prints line = record { out = line ++ 10 ∷ []; err_out = []; status = 0 }

-- `os.Args[1]`, if it is there.
abbrev pub first_argument : List Bytes → Option Bytes
first_argument (name ∷ argument ∷ rest) = some argument
first_argument _ = none

-- The bytes of `make([]byte, 16)` that nothing was read into.
abbrev pub zeros : Bytes
zeros = replicate 16 0

module _ (p : Platform) where
  abbrev pub encoded_hash : Bytes → Bytes → Bytes
  encoded_hash secret salt =
      encode (p.std_encode salt)
        (p.std_encode (p.argon2id secret salt argon_time argon_memory argon_threads argon_key_len))

  -- scripts/gen_hash.go, which does not look at the error of `rand.Read`.
  unfoldable pub gen_hash : List Bytes → Option Bytes → Printed
  gen_hash args random =
      prints (encoded_hash (get_or (first_argument args) (codes "test123")) (get_or random zeros))

  -- scripts/hash_secret.go; `failure` is what the error prints as.
  unfoldable pub hash_script : List Bytes → Bytes → Option Bytes → Printed
  hash_script args failure random = elim (first_argument args) [
    | none ↦ record {
      out = codes "Usage: go run hash_secret.go <your-password>" ++ 10 ∷ [];
      err_out = [];
      status = 1;
    }
    | some secret ↦ elim random [
      | none ↦ record {
        out = [];
        err_out = codes "Error generating salt: " ++ (failure ++ 10 ∷ []);
        status = 1;
      }
      | some salt ↦ prints (encoded_hash secret salt)
    ]
  ]

  -- Given a secret and random bytes, both programs end well and print one line, the same one, which
  -- is the hash that the server would make; the server then accepts another secret against this
  -- line exactly when Argon2id gives it the same key with that salt.
  pub verify_secret-gen_hash :
      PlatformLaws p
      → (name secret salt failure : Bytes) (rest : List Bytes)
      → (line : Bytes) × (gen_hash (name ∷ secret ∷ rest) (some salt) ≡ prints line)
        × (hash_script (name ∷ secret ∷ rest) failure (some salt) ≡ prints line)
        × (hash_secret p secret (some salt) ≡ ok line)
        × ((other : Bytes)
            → (verify_secret p other line ≡ ok tt) ↔ (
                p.argon2id other salt argon_time argon_memory argon_threads argon_key_len
                ≡ p.argon2id secret salt argon_time argon_memory argon_threads argon_key_len))
  unfolding gen_hash hash_script hash_secret
  verify_secret-gen_hash laws name secret salt failure rest =
      let (line, made, accepts) = verify_secret-hash_secret p laws secret salt in
      let same : encoded_hash secret salt ≡ line = ok-inj made in
      (line, ap prints same, ap prints same, made, accepts)
