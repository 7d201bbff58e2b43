-- ===== src/Auth/Challenge.antt =====
-- internal/auth/challenge.go: challenges that a device may answer once. The random bytes (or the
-- failure of `rand.Read`), the new identifier and the time are arguments. `cleanupLoop` calls
-- `cleanup` each minute; here it may be called at any time.
pub mod Once
pub mod Made
use fileflow.Common.{
  Bool, Bytes, List, Option, [], delete, if◌then◌else◌, lookup, ltb, none, put, some, ℕ, ◌+◌, ◌∷◌,
  bytes_key,
}
use fileflow.Common.Result.{Result, err, ok}

pub data ChallengeError : Type 0 where
  challenge_not_found challenge_expired rand_failed : ChallengeError

pub record Challenge : Type 0 where
  pub id : Bytes
  pub device_id : Bytes
  pub nonce : Bytes
  pub expires_at : ℕ

pub record ChallengeStore : Type 0 where
  pub challenges : List (Bytes × Challenge)
  pub ttl : ℕ

unfoldable pub new_challenge_store : ℕ → ChallengeStore
new_challenge_store ttl = record { challenges = []; ttl = ttl }

-- `now.After(c.ExpiresAt)`
abbrev pub is_late : ℕ → Challenge → Bool
is_late now c = ltb c.expires_at now

-- Deleting under `range` keeps the entries that the test passes over.
unfoldable pub drop_late : ℕ → List (Bytes × Challenge) → List (Bytes × Challenge)
drop_late now [] = []
drop_late now ((id, c) ∷ rest) =
    if is_late now c then drop_late now rest else (id, c) ∷ drop_late now rest

unfoldable pub cleanup : ChallengeStore → ℕ → ChallengeStore
cleanup cs now = record cs { challenges = drop_late now cs.challenges }

unfoldable pub create :
    ChallengeStore
    → Bytes
    → Option Bytes
    → Bytes
    → ℕ
    → Result ChallengeError Challenge × ChallengeStore
create cs device_id none uuid now = (err rand_failed, cs)
create cs device_id (some nonce) uuid now =
    let c : Challenge = record {
      id = uuid;
      device_id = device_id;
      nonce = nonce;
      expires_at = now + cs.ttl;
    } in
    (ok c, record cs { challenges = put uuid c cs.challenges })

-- An expired challenge is taken out as well.
unfoldable pub consume :
    ChallengeStore → Bytes → ℕ → Result ChallengeError Challenge × ChallengeStore
consume cs id now = elim (lookup id cs.challenges) [
  | none ↦ (err challenge_not_found, cs)
  | some c ↦ (
    if is_late now c then err challenge_expired else ok c,
    record cs { challenges = delete id cs.challenges },
  )
]
