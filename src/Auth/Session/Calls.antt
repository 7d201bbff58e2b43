-- ===== src/Auth/Session/Calls.antt =====
-- internal/auth/session.go: a session among the calls on its store.
use fileflow.Common.{
  All, Bool-cases, Bytes, List, Option, [], arith, bytes_beq, bytes_beq_iff, false, if◌then◌else◌,
  inl, inr, leb, lookup, lookup-delete, lookup-put, ltb, none, put, refl, some, ℕ, ◌+◌, ◌∷◌, ◌≡◌,
  ◌≢◌, ◌≤◌, bytes_key,
}
use fileflow.Auth.Session.{
  Session, SessionStore, cleanup, create, drop_late, get, remove, session_not_found,
}
use fileflow.Common.Result.{err}

-- A call on the store, by any handler or by the cleaning goroutine. `Get` changes nothing.
pub data Call : Type 0 where
  creates : (device_id : Bytes) (random : Option Bytes) (now : ℕ) → Call
  removes : (id : Bytes) → Call
  cleans : (now : ℕ) → Call

lookup-drop_late-none :
    (id : Bytes) (now : ℕ) (m : List (Bytes × Session))
    → lookup id m ≡ none
    → lookup id (drop_late now m) ≡ none
unfolding lookup drop_late
lookup-drop_late-none id now [] e = refl
lookup-drop_late-none id now ((i, s) ∷ rest) e = elim (Bool-cases (bytes_beq i id)) [
  | inl same ↦ cc (rw same at e)
  | inr other ↦ ground (arith, other, lookup-drop_late-none id now rest)
]

lookup-drop_late-some :
    (id : Bytes) (now : ℕ) (s : Session) (m : List (Bytes × Session))
    → lookup id m ≡ some s
    → ltb s.expires_at now ≡ false
    → lookup id (drop_late now m) ≡ some s
unfolding lookup drop_late
lookup-drop_late-some id now s [] e timely = cc
lookup-drop_late-some id now s ((i, t) ∷ rest) e timely = elim (Bool-cases (bytes_beq i id)) [
  | inl same ↦
      let found : t ≡ s = ground (arith, same) in
      let kept : ltb t.expires_at now ≡ false = rw found timely in rw kept (ground (arith, same))
  | inr other ↦
      let later : lookup id rest ≡ some s = ground (arith, other) in
      ground (arith, other, lookup-drop_late-some id now s rest later timely)
]

module _ (url_encode : Bytes → Bytes) where
  unfoldable pub call : SessionStore → Call → SessionStore
  call ss (creates device_id random now) = (create url_encode ss device_id random now).1
  call ss (removes id) = remove ss id
  call ss (cleans now) = cleanup ss now

  unfoldable pub run : SessionStore → List Call → SessionStore
  run ss [] = ss
  run ss (k ∷ ks) = run (call ss k) ks

  -- The random bytes of a new session do not give this identifier.
  abbrev pub IsOther : Bytes → Call → Type 0
  IsOther id (creates device_id none now) = Unit
  IsOther id (creates device_id (some random) now) = url_encode random ≢ id
  IsOther id (removes j) = Unit
  IsOther id (cleans now) = Unit

  -- The call makes and removes other sessions, and cleans no later than this end.
  abbrev pub Spares : Bytes → ℕ → Call → Type 0
  Spares id end (creates device_id none now) = Unit
  Spares id end (creates device_id (some random) now) = url_encode random ≢ id
  Spares id end (removes j) = j ≢ id
  Spares id end (cleans now) = now ≤ end

  call-none :
      (id : Bytes) (ss : SessionStore) (k : Call)
      → IsOther id k
      → lookup id ss.sessions ≡ none
      → lookup id (call ss k).sessions ≡ none
  unfolding call create remove cleanup
  call-none id ss (creates device_id none now) n e = e
  call-none id ss (creates device_id (some random) now) n e =
      rw lookup-put (ground (arith, bytes_beq_iff (url_encode random) id))
  call-none id ss (removes j) n e = rw lookup-delete (ground arith)
  call-none id ss (cleans now) n e = lookup-drop_late-none id now ss.sessions e

  run-none :
      (id : Bytes) (ss : SessionStore) (ks : List Call)
      → All (IsOther id) ks
      → lookup id ss.sessions ≡ none
      → lookup id (run ss ks).sessions ≡ none
  unfolding run
  run-none id ss [] n e = e
  run-none id ss (k ∷ ks) (n, ns) e = run-none id (call ss k) ks ns (call-none id ss k n e)

  call-some :
      (id : Bytes) (s : Session) (ss : SessionStore) (k : Call)
      → Spares id s.expires_at k
      → lookup id ss.sessions ≡ some s
      → lookup id (call ss k).sessions ≡ some s
  unfolding call create remove cleanup
  call-some id s ss (creates device_id none now) n there = there
  call-some id s ss (creates device_id (some random) now) n there =
      rw lookup-put (ground (arith, bytes_beq_iff (url_encode random) id))
  call-some id s ss (removes j) n there = rw lookup-delete (ground (arith, bytes_beq_iff j id))
  call-some id s ss (cleans now) n there =
      lookup-drop_late-some id now s ss.sessions there (ground arith)

  run-some :
      (id : Bytes) (s : Session) (ss : SessionStore) (ks : List Call)
      → All (Spares id s.expires_at) ks
      → lookup id ss.sessions ≡ some s
      → lookup id (run ss ks).sessions ≡ some s
  unfolding run
  run-some id s ss [] n e = e
  run-some id s ss (k ∷ ks) (n, ns) e = run-some id s (call ss k) ks ns (call-some id s ss k n e)

  -- A session that was made is found, as it was made, until its end and not after it, whatever other
  -- sessions are made and removed in between and however often the store is cleaned up to its end.
  -- Once it is removed it is never found again, whatever calls come then, as long as no new session
  -- gets its identifier.
  pub get-create :
      (ss : SessionStore) (device_id random : Bytes) (made now : ℕ) (ks after : List Call)
      (at_time : ℕ)
      → All (Spares (url_encode random) (made + ss.ttl)) ks
      → All (IsOther (url_encode random)) after
      → let (r, ss') = create url_encode ss device_id (some random) made in
        let id = url_encode random in
        (get (run ss' ks) id now ≡ (if leb now (made + ss.ttl) then r else err session_not_found))
        × (get (run (remove (run ss' ks) id) after) id at_time ≡ err session_not_found)
  unfolding get create remove
  get-create ss device_id random made now ks after at_time spared others =
      let id : Bytes = url_encode random in
      let s : Session = record { id = id; device_id = device_id; expires_at = made + ss.ttl } in
      let ss' : SessionStore = record ss { sessions = put id s ss.sessions } in
      let self = (bytes_beq_iff id id).1 refl in
      let first : lookup id ss'.sessions ≡ some s = rw (lookup-put id id s ss.sessions, self) in
      let removed : lookup id (remove (run ss' ks) id).sessions ≡ none =
        rw (remove, lookup-delete id id (run ss' ks).sessions, self) in
      let gone = run-none id (remove (run ss' ks) id) after others removed in
      (rw (get, run-some id s ss' ks spared first) (ground arith), rw (get, gone))
