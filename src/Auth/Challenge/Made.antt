-- ===== src/Auth/Challenge/Made.antt =====
-- internal/auth/challenge.go: a challenge that is handed out was made.
use fileflow.Common.{
  All, Bool-cases, Bytes, List, Option-cases, [], arith, bytes_beq, bytes_beq_iff, delete,
  if◌then◌else◌, inl, inr, lookup, none, put, refl, some, subst₂, ℕ, ◌+◌, ◌∙◌, ◌∷◌, ◌≡◌, ◌≤◌, ◌⊎◌,
  bytes_key,
}
use fileflow.Common.Result.{err, ok}
use fileflow.Auth.Challenge.{
  Challenge, ChallengeStore, challenge_expired, cleanup, consume, create, drop_late, is_late,
  new_challenge_store,
}
use fileflow.Auth.Challenge.Once.{Call, call, cleans, consumes, creates, run}

-- The challenge that a call makes.
abbrev pub Makes : ℕ → Call → Challenge → Type 0
Makes ttl (creates device_id (some nonce) uuid now) c =
    c ≡ record { id = uuid; device_id = device_id; nonce = nonce; expires_at = now + ttl }
Makes ttl _ c = ⊥

abbrev pub WasMade : ℕ → List Call → Challenge → Type 0
WasMade ttl [] c = ⊥
WasMade ttl (k ∷ ks) c = Makes ttl k c ⊎ WasMade ttl ks c

-- Every stored challenge stands under its own identifier and was made by one of the calls.
abbrev IsRooted : ℕ → List Call → Bytes × Challenge → Type 0
IsRooted ttl ks b = (b.1.id ≡ b.0) × WasMade ttl ks b.1

module _ (ttl : ℕ) (history : List Call) where
  put-IsRooted :
      (id : Bytes) (c : Challenge) (m : List (Bytes × Challenge))
      → IsRooted ttl history (id, c)
      → All (IsRooted ttl history) m
      → All (IsRooted ttl history) (put id c m)
  unfolding put
  put-IsRooted id c [] r h = (r, tt)
  put-IsRooted id c ((i, d) ∷ rest) r (q, h) = elim (Bool-cases (bytes_beq i id)) [
    | inl same ↦ let e : id ≡ i = ground (arith, bytes_beq_iff i id) in rw same ((r.0 ∙ e, r.1), h)
    | inr other ↦ rw other (q, put-IsRooted id c rest r h)
  ]

  delete-IsRooted :
      (id : Bytes) (m : List (Bytes × Challenge))
      → All (IsRooted ttl history) m
      → All (IsRooted ttl history) (delete id m)
  unfolding delete
  delete-IsRooted id [] h = tt
  delete-IsRooted id ((i, d) ∷ rest) (q, h) = elim (Bool-cases (bytes_beq i id)) [
    | inl same ↦ rw same (delete-IsRooted id rest h)
    | inr other ↦ rw other (q, delete-IsRooted id rest h)
  ]

  drop_late-IsRooted :
      (now : ℕ) (m : List (Bytes × Challenge))
      → All (IsRooted ttl history) m
      → All (IsRooted ttl history) (drop_late now m)
  unfolding drop_late
  drop_late-IsRooted now [] h = tt
  drop_late-IsRooted now ((i, d) ∷ rest) (q, h) = elim (Bool-cases (is_late now d)) [
    | inl late ↦ rw late (drop_late-IsRooted now rest h)
    | inr timely ↦ rw timely (q, drop_late-IsRooted now rest h)
  ]

  lookup-IsRooted :
      (id : Bytes) (c : Challenge) (m : List (Bytes × Challenge))
      → All (IsRooted ttl history) m
      → lookup id m ≡ some c
      → IsRooted ttl history (id, c)
  unfolding lookup
  lookup-IsRooted id c [] h e = cc
  lookup-IsRooted id c ((i, d) ∷ rest) (q, h) e = elim (Bool-cases (bytes_beq i id)) [
    | inl same ↦
        let p : i ≡ id = (bytes_beq_iff i id).0 same in
        let f : d ≡ c = ground (arith, same) in subst₂ (λ j x. IsRooted ttl history (j, x)) p f q
    | inr other ↦ lookup-IsRooted id c rest h (ground (arith, other))
  ]

  call-IsRooted :
      (cs : ChallengeStore) (k : Call)
      → cs.ttl ≡ ttl
      → ((c : Challenge) → Makes ttl k c → WasMade ttl history c)
      → All (IsRooted ttl history) cs.challenges
      → All (IsRooted ttl history) (call cs k).challenges × ((call cs k).ttl ≡ ttl)
  unfolding call create consume cleanup
  call-IsRooted cs (creates device_id none uuid now) t made h = (h, t)
  call-IsRooted cs (creates device_id (some nonce) uuid now) t made h =
      (put-IsRooted uuid _ cs.challenges (refl, made _ (rw t)) h, t)
  call-IsRooted cs (consumes j now) t made h = elim (Option-cases (lookup j cs.challenges)) [
    | inl missing ↦ rw (missing, call, consume) (h, t)
    | inr (c, found) ↦ rw (found, call, consume) (delete-IsRooted j cs.challenges h, t)
  ]
  call-IsRooted cs (cleans now) t made h = (drop_late-IsRooted now cs.challenges h, t)

  run-IsRooted :
      (cs : ChallengeStore) (ks : List Call)
      → cs.ttl ≡ ttl
      → ((c : Challenge) → WasMade ttl ks c → WasMade ttl history c)
      → All (IsRooted ttl history) cs.challenges
      → All (IsRooted ttl history) (run cs ks).challenges
  unfolding run
  run-IsRooted cs [] t made h = h
  run-IsRooted cs (k ∷ ks) t made h =
      let (h', t') = call-IsRooted cs k t (λ c m. made c (inl m)) h in
      run-IsRooted (call cs k) ks t' (λ c m. made c (inr m)) h'

-- A challenge that `Consume` hands out, after any calls on a new store, has the identifier that was
-- asked for, was made by one of those calls, and has not passed its end.
pub consume-WasMade :
    (ttl : ℕ) (ks : List Call) (id : Bytes) (now : ℕ) (c : Challenge)
    → (consume (run (new_challenge_store ttl) ks) id now).0 ≡ ok c
    → (c.id ≡ id) × WasMade ttl ks c × (now ≤ c.expires_at)
unfolding consume new_challenge_store
consume-WasMade ttl ks id now c e =
    let cs : ChallengeStore = run (new_challenge_store ttl) ks in
    let rooted = run-IsRooted ttl ks (new_challenge_store ttl) ks refl (λ c m. m) tt in
    elim (Option-cases (lookup id cs.challenges)) [
      | inl missing ↦ cc (rw (missing, consume) at e)
      | inr (d, found) ↦
          let r = lookup-IsRooted ttl ks id d cs.challenges rooted found in
          let answer : (if is_late now d then err challenge_expired else ok d) ≡ ok c =
            rw (found, consume) at e in
          let same : d ≡ c = ground arith in rw (← same) (r.0, r.1, ground arith)
    ]
