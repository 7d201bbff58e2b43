-- ===== src/Handler/Service/Ledger.antt =====
-- internal/handler/api.go: what each request adds to the devices and the challenges that the server
-- knows.
use fileflow.Common.{
  Bool-cases, Bytes, List, Option, [], ap, bytes_beq_iff, inl, inr, none, refl, some, subst, sym,
  true, ℕ, ◌++◌, ◌==◌, ◌∙◌, ◌∷◌, ◌≡◌, ◌⊎◌, bytes_key,
}
use fileflow.Common.Result.{
  >>=-eq-ok, Result-cases, ok, ok-inj, require, require-eq-ok, some_or, some_or-eq-ok,
}
use fileflow.Limit.{RateLimit}
use fileflow.Auth.Platform.{EcPublicJwk, Platform, PublicKey}
use fileflow.Auth.Challenge.{Challenge, ChallengeStore, new_challenge_store}
use fileflow.Auth.Challenge.Once.{Call, call, consumes, creates, run}
use fileflow.Auth.Challenge.Made.{Makes, WasMade}
use fileflow.Handler.Proxy.{Net}
use fileflow.Handler.Http.{Request, is_post, method_not_allowed}
use fileflow.Handler.Api.{Handler, load_device, map_err, map_err-eq-ok}
use fileflow.Handler.Api.Devices.{
  AttestBody, ChallengeBody, EnrollBody, device_to_challenge, handle_admin_devices,
  handle_device_attest, handle_device_challenge,
}
use fileflow.Handler.Api.Enrollment.{MayEnroll, handle_admin_devices-MayEnroll}
use fileflow.Store.{Database, Device, add_device, get_device}
use fileflow.Store.Rows.{DatabaseLaws, found_after, get_device-add_device}
use fileflow.Handler.Service.{
  Ask, Served, World, attests, enrolls, logs_in, seeks_challenge, sweeps,
}
use fileflow.Handler.Api.Tickets.{handle_device_attest-IsAttested}
use fileflow.Auth.Jwk.{equal_jwk, parse_jwk_bytes, parse_jwk_map, validate_device_id_format}

module _ (p : Platform) (db : Database) (rl : RateLimit) (net : Net) (h : Handler) where
  abbrev pub Asks : Type 0
  Asks = List (Ask p db rl net h)

  -- One of the requests was let through to enroll this device.
  abbrev pub WasEnrolled : Asks → Device → Type 0
  WasEnrolled [] d = ⊥
  WasEnrolled (enrolls r now ∷ asks) d = MayEnroll p db h r now d ⊎ WasEnrolled asks d
  WasEnrolled (seeks_challenge r random uuid now ∷ asks) d = WasEnrolled asks d
  WasEnrolled (attests r now ∷ asks) d = WasEnrolled asks d
  WasEnrolled (logs_in trusted r uuid now ∷ asks) d = WasEnrolled asks d
  WasEnrolled (sweeps now ∷ asks) d = WasEnrolled asks d

  -- The device with this challenge is enrolled in this state, with the key that the request names.
  pub record NamesKey (r : Request ChallengeBody) (s : db.State) (id : Bytes) : Type 0 where
    pub posted : is_post r.method ≡ true
    pub body : ChallengeBody
    pub read : r.body ≡ some body
    pub own : body.device_id ≡ id
    pub device : Device
    pub enrolled : get_device db body.device_id s ≡ ok device
    pub wanted : PublicKey × EcPublicJwk
    pub named : parse_jwk_map p body.pub_jwk ≡ ok wanted
    pub stored : PublicKey × EcPublicJwk
    pub kept : parse_jwk_bytes p device.pub_jwk_json ≡ ok stored
    pub same_key : equal_jwk (some wanted.1) (some stored.1) ≡ true

  module _ (start : World p db rl net h) where
    -- The challenge that a request brings its device, in the state to which the requests before it
    -- have led.
    abbrev pub Issues : Asks → Request ChallengeBody → Option Bytes → Bytes → Challenge → Type 0
    Issues before r random uuid c =
        (v : World p db rl net h) × Served p db rl net h start v before
        × NamesKey r v.devices c.device_id
        × (random ≡ some c.nonce)
        × (uuid ≡ c.id)

    abbrev pub WasIssued : Asks → Challenge → Type 0
    WasIssued [] c = ⊥
    WasIssued (enrolls r now ∷ asks) c = WasIssued asks c
    WasIssued (seeks_challenge r random uuid now ∷ asks) c =
        Issues asks r random uuid c ⊎ WasIssued asks c
    WasIssued (attests r now ∷ asks) c = WasIssued asks c
    WasIssued (logs_in trusted r uuid now ∷ asks) c = WasIssued asks c
    WasIssued (sweeps now ∷ asks) c = WasIssued asks c

    -- The calls on the store of challenges that the requests have made.
    abbrev pub ChallengesAccounted : ℕ → ChallengeStore → Asks → Type 0
    ChallengesAccounted ttl cs asks =
        (ks : List Call) × (cs ≡ run (new_challenge_store ttl) ks)
        × ((c : Challenge) → WasMade ttl ks c → WasIssued asks c)

  abbrev pub DevicesAccounted : db.State → Asks → Type 0
  DevicesAccounted s asks =
      (id : Bytes) (d : Device)
      → get_device db id s ≡ ok d
      → (d.device_id ≡ id) × WasEnrolled asks d

  pub enrolls-Accounted :
      DatabaseLaws db
      → (r : Request EnrollBody) (now : ℕ) (s : db.State) (asks : Asks) → DevicesAccounted s asks
      → DevicesAccounted (handle_admin_devices p db h r now s).1 (enrolls r now ∷ asks)
  enrolls-Accounted laws r now s asks known id d found =
      elim (handle_admin_devices-MayEnroll p db h r now s) [
        | inl (refused, same, _) ↦ let (e, was) = known id d (rw same at found) in (e, inr was)
        | inr (new, may, same, _) ↦
            let there : found_after db new id s (add_device db new s).0 ≡ ok d =
              sym (get_device-add_device db laws new id s) ∙ (rw same at found) in
            elim (Result-cases (add_device db new s).0) [
              | inr (x, f) ↦ let (e, was) = known id d (rw f at there) in (e, inr was)
              | inl (u, f) ↦ elim (Bool-cases (new.device_id == id)) [
                | inr other ↦ let (e, was) = known id d (rw (f, other) at there) in (e, inr was)
                | inl own ↦
                    let q : new ≡ d = ok-inj (rw (f, own) at there) in
                    (
                      ap (λ (x : Device). x.device_id) (sym q)
                          ∙ (bytes_beq_iff new.device_id id).0 own,
                      inl (subst (MayEnroll p db h r now) q may),
                    )
              ]
            ]
      ]

  run-append :
      (cs : ChallengeStore) (ks : List Call) (k : Call) → run cs (ks ++ k ∷ []) ≡ call (run cs ks) k
  unfolding run
  run-append cs [] k = refl
  run-append cs (j ∷ ks) k = run-append (call cs j) ks k

  WasMade-append :
      (ttl : ℕ) (ks : List Call) (k : Call) (c : Challenge)
      → WasMade ttl (ks ++ k ∷ []) c
      → WasMade ttl ks c ⊎ Makes ttl k c
  WasMade-append ttl [] k c (inl made) = inr made
  WasMade-append ttl [] k c (inr none_left) = absurd none_left
  WasMade-append ttl (j ∷ ks) k c (inl made) = inl (inl made)
  WasMade-append ttl (j ∷ ks) k c (inr later) = elim (WasMade-append ttl ks k c later) [
    | inl old ↦ inl (inr old)
    | inr new ↦ inr new
  ]

  -- One more call.
  pub call-Accounted :
      (start : World p db rl net h) (ttl : ℕ) (cs : ChallengeStore) (k : Call) (asks more : Asks)
      → ((c : Challenge) → WasIssued start asks c → WasIssued start more c)
      → ((c : Challenge) → Makes ttl k c → WasIssued start more c)
      → ChallengesAccounted start ttl cs asks
      → ChallengesAccounted start ttl (call cs k) more
  call-Accounted start ttl cs k asks more older new (ks, e, issued) = (
    ks ++ k ∷ [],
    ap (λ x. call x k) e ∙ sym (run-append (new_challenge_store ttl) ks k),
    λ c made. elim (WasMade-append ttl ks k c made) [
      | inl old ↦ older c (issued c old)
      | inr made_now ↦ new c made_now
    ],
  )

  device_to_challenge-NamesKey :
      (r : Request ChallengeBody) (s : db.State) (id : Bytes)
      → device_to_challenge p db h r s ≡ ok id
      → NamesKey r s id
  unfolding device_to_challenge load_device
  device_to_challenge-NamesKey r s id e =
      let (u₁, e₁, r₁) = >>=-eq-ok (require (is_post r.method) method_not_allowed) _ e in
      let (b, e₂, r₂) = >>=-eq-ok (some_or r.body _) _ r₁ in
      let (u₃, e₃, r₃) = >>=-eq-ok (require (validate_device_id_format b.device_id) _) _ r₂ in
      let (wanted, e₄, r₄) = >>=-eq-ok (map_err _ (parse_jwk_map p b.pub_jwk)) _ r₃ in
      let (d, e₅, r₅) = >>=-eq-ok (map_err _ (get_device db b.device_id s)) _ r₄ in
      let (stored, e₆, r₆) = >>=-eq-ok (map_err _ (parse_jwk_bytes p d.pub_jwk_json)) _ r₅ in
      let (u₇, e₇, r₇) = >>=-eq-ok (require (equal_jwk (some wanted.1) (some stored.1)) _) _ r₆ in
      let own : b.device_id ≡ id = cc in
      record {
        posted = require-eq-ok _ _ e₁;
        body = b;
        read = some_or-eq-ok _ _ e₂;
        own = own;
        device = d;
        enrolled = map_err-eq-ok _ (get_device db b.device_id s) e₅;
        wanted = wanted;
        named = map_err-eq-ok _ (parse_jwk_map p b.pub_jwk) e₄;
        stored = stored;
        kept = map_err-eq-ok _ (parse_jwk_bytes p d.pub_jwk_json) e₆;
        same_key = require-eq-ok _ _ e₇;
      }

  pub seeks-Accounted :
      (start : World p db rl net h) (ttl : ℕ) (r : Request ChallengeBody) (random : Option Bytes)
      (uuid : Bytes) (now : ℕ) (v : World p db rl net h) (asks : Asks)
      → Served p db rl net h start v asks
      → ChallengesAccounted start ttl v.challenges asks
      → ChallengesAccounted start ttl
          (handle_device_challenge p db h r random uuid now v.devices v.challenges).1
          (seeks_challenge r random uuid now ∷ asks)
  unfolding call handle_device_challenge
  seeks-Accounted start ttl r random uuid now v asks served known =
      elim (Result-cases (device_to_challenge p db h r v.devices)) [
        | inr (answer, f) ↦
            let q : handle_device_challenge p db h r random uuid now v.devices v.challenges
                ≡ (answer, v.challenges) =
              rw (f, handle_device_challenge) refl in
            let (ks, e, issued) = known in (ks, ap (λ x. x.1) q ∙ e, λ c made. inr (issued c made))
        | inl (device_id, f) ↦
            let q : (handle_device_challenge p db h r random uuid now v.devices v.challenges).1
                ≡ call v.challenges (creates device_id random uuid now) =
              rw (f, handle_device_challenge) refl in
            subst (λ x. ChallengesAccounted start ttl x (seeks_challenge r random uuid now ∷ asks))
              (sym q)
              (call-Accounted start ttl v.challenges (creates device_id random uuid now) asks
                (seeks_challenge r random uuid now ∷ asks) (λ c old. inr old)
                (λ c made. inl (makes-Issues r random uuid c v served device_id now ttl f made))
                known)
      ]
    where
      makes-Issues :
          (r : Request ChallengeBody) (random : Option Bytes) (uuid : Bytes) (c : Challenge)
          (v : World p db rl net h) (served : Served p db rl net h start v asks) (device_id : Bytes)
          (now ttl : ℕ)
          → device_to_challenge p db h r v.devices ≡ ok device_id
          → Makes ttl (creates device_id random uuid now) c
          → Issues start asks r random uuid c
      makes-Issues r none uuid c v served device_id now ttl f made = absurd made
      makes-Issues r (some nonce) uuid c v served device_id now ttl f made = (
        v,
        served,
        device_to_challenge-NamesKey r v.devices c.device_id
            (f ∙ ap ok (ap (λ (x : Challenge). x.device_id) (sym made))),
        ap some (ap (λ (x : Challenge). x.nonce) (sym made)),
        ap (λ (x : Challenge). x.id) (sym made),
      )

  pub attests-Accounted :
      (start : World p db rl net h) (ttl : ℕ) (r : Request AttestBody) (now : ℕ) (s : db.State)
      (cs : ChallengeStore) (asks : Asks)
      → ChallengesAccounted start ttl cs asks
      → ChallengesAccounted start ttl
          (handle_device_attest p db h r now s cs).1
          (attests r now ∷ asks)
  unfolding call
  attests-Accounted start ttl r now s cs asks known =
      elim (handle_device_attest-IsAttested p db h r now s cs) [
        | inl (refused, same, _) ↦ let (ks, e, issued) = known in (ks, same ∙ e, issued)
        | inr (body, readable, same, _) ↦
            subst (λ x. ChallengesAccounted start ttl x (attests r now ∷ asks)) (sym same)
              (call-Accounted start ttl cs (consumes body.challenge_id now) asks
                (attests r now ∷ asks) (λ c old. old) (λ c made. absurd made) known)
      ]
