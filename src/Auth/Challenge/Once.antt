-- ===== src/Auth/Challenge/Once.antt =====
-- internal/auth/challenge.go: a challenge is answered in time or not at all, and once.
use fileflow.Common.{
  All, Bool-cases, Bytes, List, Option, Option-cases, [], ap, arith, bytes_beq, bytes_beq_iff,
  false, if◌then◌else◌, inl, inr, leb, lookup, lookup-delete, lookup-put, none, put, refl, some,
  true, ℕ, ◌+◌, ◌∷◌, ◌≡◌, ◌≢◌, ◌≤◌, bytes_key,
}
use fileflow.Common.Result.{Result, err, ok}
use fileflow.Auth.Challenge.{
  Challenge, ChallengeError, ChallengeStore, challenge_expired, challenge_not_found, cleanup,
  consume, create, drop_late, is_late,
}

-- A call on the store, by any handler or by the cleaning goroutine.
pub data Call : Type 0 where
  creates : (device_id : Bytes) (random : Option Bytes) (uuid : Bytes) (now : ℕ) → Call
  consumes : (id : Bytes) (now : ℕ) → Call
  cleans : (now : ℕ) → Call

unfoldable pub call : ChallengeStore → Call → ChallengeStore
call cs (creates device_id random uuid now) = (create cs device_id random uuid now).1
call cs (consumes id now) = (consume cs id now).1
call cs (cleans now) = cleanup cs now

unfoldable pub run : ChallengeStore → List Call → ChallengeStore
run cs [] = cs
run cs (k ∷ ks) = run (call cs k) ks

-- The call does not make a challenge of this identifier; identifiers are fresh UUIDs.
abbrev pub IsOther : Bytes → Call → Type 0
IsOther id (creates device_id random uuid now) = uuid ≢ id
IsOther id (consumes j now) = Unit
IsOther id (cleans now) = Unit

lookup-drop_late-none :
    (id : Bytes) (now : ℕ) (m : List (Bytes × Challenge))
    → lookup id m ≡ none
    → lookup id (drop_late now m) ≡ none
unfolding lookup drop_late
lookup-drop_late-none id now [] e = refl
lookup-drop_late-none id now ((i, c) ∷ rest) e = elim (Bool-cases (bytes_beq i id)) [
  | inl same ↦ cc (the_same same e)
  | inr other ↦ ground (arith, other, lookup-drop_late-none id now rest)
]
  where
    the_same :
        bytes_beq i id ≡ true
        → (if bytes_beq i id then some c else lookup id rest) ≡ none
        → some c ≡ none
    the_same s q = rw s at q

lookup-drop_late-some :
    (id : Bytes) (now : ℕ) (c : Challenge) (m : List (Bytes × Challenge))
    → lookup id m ≡ some c
    → is_late now c ≡ false
    → lookup id (drop_late now m) ≡ some c
unfolding lookup drop_late
lookup-drop_late-some id now c [] e timely = cc
lookup-drop_late-some id now c ((i, d) ∷ rest) e timely = elim (Bool-cases (bytes_beq i id)) [
  | inl same ↦
      let found : d ≡ c = ground (arith, same) in
      let kept : is_late now d ≡ false = rw found timely in rw kept (ground (arith, same))
  | inr other ↦
      let later : lookup id rest ≡ some c = ground (arith, other) in
      ground (arith, other, lookup-drop_late-some id now c rest later timely)
]

-- The challenge, or that there is none, after a call.
pub call-none :
    (id : Bytes) (cs : ChallengeStore) (k : Call)
    → IsOther id k
    → lookup id cs.challenges ≡ none
    → lookup id (call cs k).challenges ≡ none
unfolding call create consume cleanup
call-none id cs (creates device_id none uuid now) n e = e
call-none id cs (creates device_id (some nonce) uuid now) n e =
    rw lookup-put (ground (arith, bytes_beq_iff uuid id))
call-none id cs (consumes j now) n e = elim (Option-cases (lookup j cs.challenges)) [
  | inl missing ↦ rw (missing, call, consume) e
  | inr (c, found) ↦ rw (found, call, consume, lookup-delete) (ground arith)
]
call-none id cs (cleans now) n e = lookup-drop_late-none id now cs.challenges e

run-none :
    (id : Bytes) (cs : ChallengeStore) (ks : List Call)
    → All (IsOther id) ks
    → lookup id cs.challenges ≡ none
    → lookup id (run cs ks).challenges ≡ none
unfolding run
run-none id cs [] n e = e
run-none id cs (k ∷ ks) (n, ns) e = run-none id (call cs k) ks ns (call-none id cs k n e)

pub consumed-none :
    (cs : ChallengeStore) (id : Bytes) (now : ℕ) → lookup id (consume cs id now).1.challenges ≡ none
unfolding consume
consumed-none cs id now = elim (Option-cases (lookup id cs.challenges)) [
  | inl missing ↦ rw (missing, consume) missing
  | inr (c, found) ↦ rw (found, consume, lookup-delete) (ground (arith, bytes_beq_iff id id))
]

pub consume_missing :
    (cs : ChallengeStore) (id : Bytes) (now : ℕ)
    → lookup id cs.challenges ≡ none
    → consume cs id now ≡ (err challenge_not_found, cs)
unfolding consume
consume_missing cs id now e = rw (e, consume)

-- Whatever a first `Consume` of an identifier answers, every later one finds no challenge, at any
-- time and after any calls that do not make a new challenge of the same identifier.
pub consume_once :
    (cs : ChallengeStore) (id : Bytes) (now : ℕ) (ks : List Call) (later : ℕ)
    → All (IsOther id) ks
    → (consume (run (consume cs id now).1 ks) id later).0 ≡ err challenge_not_found
consume_once cs id now ks later n =
    ap (λ (r : Result ChallengeError Challenge × ChallengeStore). r.0)
      (consume_missing _ id later
        (run-none id (consume cs id now).1 ks n (consumed-none cs id now)))

-- The call leaves a challenge of this identifier and end alone: it makes and consumes others, and
-- cleans no later than the end.
abbrev pub Spares : Bytes → ℕ → Call → Type 0
Spares id end (creates device_id random uuid now) = uuid ≢ id
Spares id end (consumes j now) = j ≢ id
Spares id end (cleans now) = now ≤ end

call-some :
    (id : Bytes) (c : Challenge) (cs : ChallengeStore) (k : Call)
    → Spares id c.expires_at k
    → lookup id cs.challenges ≡ some c
    → lookup id (call cs k).challenges ≡ some c
unfolding call create consume cleanup
call-some id c cs (creates device_id none uuid now) n e = e
call-some id c cs (creates device_id (some nonce) uuid now) n e =
    rw lookup-put (ground (arith, bytes_beq_iff uuid id))
call-some id c cs (consumes j now) n e = elim (Option-cases (lookup j cs.challenges)) [
  | inl missing ↦ rw (missing, call, consume) e
  | inr (d, found) ↦ rw (found, call, consume, lookup-delete) (ground (arith, bytes_beq_iff j id))
]
call-some id c cs (cleans now) n e = lookup-drop_late-some id now c cs.challenges e (ground arith)

run-some :
    (id : Bytes) (c : Challenge) (cs : ChallengeStore) (ks : List Call)
    → All (Spares id c.expires_at) ks
    → lookup id cs.challenges ≡ some c
    → lookup id (run cs ks).challenges ≡ some c
unfolding run
run-some id c cs [] n e = e
run-some id c cs (k ∷ ks) (n, ns) e = run-some id c (call cs k) ks ns (call-some id c cs k n e)

-- A challenge that was made is handed out, as it was made, to the first `Consume` that asks for it
-- up to its end, and refused as expired after that; other challenges and the cleaning in between
-- make no difference, as long as no cleaning runs after its end.
pub consume-create :
    (cs : ChallengeStore) (device_id nonce uuid : Bytes) (made : ℕ) (ks : List Call) (now : ℕ)
    → All (Spares uuid (made + cs.ttl)) ks
    → (c : Challenge) × ((create cs device_id (some nonce) uuid made).0 ≡ ok c)
      × (c.device_id ≡ device_id)
      × (c.nonce ≡ nonce)
      × ((consume (run (create cs device_id (some nonce) uuid made).1 ks) uuid now).0
          ≡ (if leb now (made + cs.ttl) then ok c else err challenge_expired))
unfolding create consume
consume-create cs device_id nonce uuid made ks now spared =
    let c : Challenge = record {
      id = uuid;
      device_id = device_id;
      nonce = nonce;
      expires_at = made + cs.ttl;
    } in
    let made_store : ChallengeStore = record cs { challenges = put uuid c cs.challenges } in
    let first : lookup uuid made_store.challenges ≡ some c =
      rw lookup-put (ground (arith, bytes_beq_iff uuid uuid)) in
    (c, refl, refl, refl, rw (run-some uuid c made_store ks spared first, consume) (ground arith))
