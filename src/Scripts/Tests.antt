-- ===== src/Scripts/Tests.antt =====
-- Runs of the programs of scripts on the sample platform.
use fileflow.Common.{Bytes, [], codes, refl, some, ◌↔◌, ◌∷◌, ◌≡◌, bytes_key}
use fileflow.Common.Result.{ok}
use fileflow.Auth.Secret.{
  argon_key_len, argon_memory, argon_threads, argon_time, hash_secret, verify_secret,
}
use fileflow.Auth.Sample.{sample, sample-PlatformLaws}
use fileflow.Scripts.{gen_hash, hash_script, prints, verify_secret-gen_hash}

-- With no argument one program takes a fixed secret, and the other tells how it is used.
needs_argument : (hash_script sample (codes "hash" ∷ []) [] (some (codes "salt"))).status ≡ 1
unfolding hash_script
needs_argument = refl

takes_default :
    gen_hash sample (codes "gen" ∷ []) (some (codes "salt"))
    ≡ gen_hash sample (codes "gen" ∷ codes "test123" ∷ []) (some (codes "salt"))
unfolding gen_hash
takes_default = refl

verify_secret-gen_hash_example :
    (line : Bytes) × (gen_hash sample (codes "gen" ∷ codes "pw" ∷ []) (some (codes "salt"))
      ≡ prints line)
    × (hash_script sample (codes "gen" ∷ codes "pw" ∷ []) (codes "e") (some (codes "salt"))
        ≡ prints line)
    × (hash_secret sample (codes "pw") (some (codes "salt")) ≡ ok line)
    × ((other : Bytes)
        → (verify_secret sample other line ≡ ok tt) ↔ (
            sample.argon2id other (codes "salt") argon_time argon_memory argon_threads argon_key_len
            ≡ sample.argon2id
                (codes "pw")
                (codes "salt")
                argon_time
                argon_memory
                argon_threads
                argon_key_len))
verify_secret-gen_hash_example =
    verify_secret-gen_hash sample sample-PlatformLaws (codes "gen") (codes "pw") (codes "salt")
      (codes "e") []
