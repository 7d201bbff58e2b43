-- ===== src/Auth/Secret.antt =====
-- internal/auth/secret.go: the shared secret and its hash. The library stops the program when a
-- stored hash asks for no rounds or no threads; such hashes are left out.
use fileflow.Common.{
  Bytes, List, Option, Without, [], arith, bytes_beq, bytes_beq_iff, codes, length, none, refl,
  some, split, split-Without, split-append, ℕ, ◌%◌, ◌*◌, ◌++◌, ◌^◌, ◌↔◌, ◌∷◌, ◌≡◌,
}
use fileflow.Common.Result.{Result, err, ok, require, require-eq-ok, some_or, ◌>>=◌, ◌>>◌}
use fileflow.Auth.Platform.{Platform, PlatformLaws}

-- The cases of `ErrInvalidSecret`, each with its text, and the failure of `rand.Read`.
pub data SecretError : Type 0 where
  invalid_hash_format unsupported_algorithm invalid_parameters invalid_salt : SecretError
  invalid_hash wrong_secret rand_failed : SecretError

abbrev pub argon_time : ℕ
argon_time = 1

abbrev pub argon_memory : ℕ
argon_memory = 64 * 1024

abbrev pub argon_threads : ℕ
argon_threads = 4

abbrev pub argon_key_len : ℕ
argon_key_len = 32

-- The six parts of an encoded hash.
pub record Parts : Type 0 where
  pub algorithm : Bytes
  pub params : Bytes
  pub salt : Bytes
  pub hash : Bytes

unfoldable pub six_parts : List Bytes → Result SecretError Parts
six_parts (a ∷ b ∷ c ∷ d ∷ e ∷ f ∷ []) =
    ok (record { algorithm = b; params = d; salt = e; hash = f })
six_parts _ = err invalid_hash_format

-- The format of `Sprintf`, with the constants printed.
unfoldable pub encode : Bytes → Bytes → Bytes
encode salt hash =
    b'$'
    ∷ (codes "argon2id"
        ++ b'$'
          ∷ (codes "v=19" ++ b'$' ∷ (codes "m=65536,t=1,p=4" ++ b'$' ∷ (salt ++ b'$' ∷ hash))))

module _ (p : Platform) where
  unfoldable pub hash_secret : Bytes → Option Bytes → Result SecretError Bytes
  unfolding encode
  hash_secret secret none = err rand_failed
  hash_secret secret (some salt) =
      let hash = p.argon2id secret salt argon_time argon_memory argon_threads argon_key_len in
      ok (encode (p.std_encode salt) (p.std_encode hash))

  unfoldable pub verify_secret : Bytes → Bytes → Result SecretError (Unit {0})
  unfolding six_parts
  verify_secret secret encoded = do
    parts ← six_parts (split b'$' encoded)
    require (bytes_beq parts.algorithm (codes "argon2id")) unsupported_algorithm
    (memory, time, threads) ← some_or (p.scan_params parts.params) invalid_parameters
    salt ← some_or (p.std_decode parts.salt) invalid_salt
    expected ← some_or (p.std_decode parts.hash) invalid_hash
    require
        (bytes_beq (p.argon2id secret salt time memory threads (length expected % 2 ^ 32)) expected)
        wrong_secret

  split-encoded :
      (salt hash : Bytes)
      → Without b'$' salt
      → Without b'$' hash
      → split b'$' (encode salt hash)
        ≡ [] ∷ codes "argon2id" ∷ codes "v=19" ∷ codes "m=65536,t=1,p=4" ∷ salt ∷ hash ∷ []
  unfolding encode
  split-encoded salt hash s h = rw (
    split-append b'$' [] _ tt,
    split-append b'$' (codes "argon2id") _ (omega arith),
    split-append b'$' (codes "v=19") _ (omega arith),
    split-append b'$' (codes "m=65536,t=1,p=4") _ (omega arith),
    split-append b'$' salt _ s,
    split-Without b'$' hash h,
  )

  -- A secret that is hashed with a salt verifies against the result, and another secret does exactly
  -- when Argon2id gives it the same key with that salt.
  pub verify_secret-hash_secret :
      PlatformLaws p
      → (secret salt : Bytes)
      → (encoded : Bytes) × (hash_secret secret (some salt) ≡ ok encoded)
        × ((other : Bytes)
            → (verify_secret other encoded ≡ ok tt) ↔ (
                p.argon2id other salt argon_time argon_memory argon_threads argon_key_len
                ≡ p.argon2id secret salt argon_time argon_memory argon_threads argon_key_len))
  unfolding hash_secret verify_secret
  verify_secret-hash_secret laws secret salt =
      let key : Bytes =
        p.argon2id secret salt argon_time argon_memory argon_threads argon_key_len in
      (
        _,
        refl,
        λ other.
            rw
              (
                split-encoded (p.std_encode salt) (p.std_encode key) (laws.std_encode_dollar salt)
                    (laws.std_encode_dollar key),
                laws.scan_printed,
                laws.std_decode-std_encode salt,
                laws.std_decode-std_encode key,
                laws.argon2id_length secret salt argon_time argon_memory argon_threads
                    argon_key_len,
              )
              (λ e. (bytes_beq_iff _ _).0 (require-eq-ok _ _ e), λ q. rw ((bytes_beq_iff _ _).1 q)),
      )
