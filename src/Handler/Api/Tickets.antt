-- ===== src/Handler/Api/Tickets.antt =====
-- internal/handler/api.go: when a device gets a ticket.
use fileflow.Common.{
  Bool, Bytes, [], ap, bytes_beq, bytes_beq_iff, inl, inr, not, refl, some, sym, true, ℕ, ◌&&◌, ◌∙◌,
  ◌∷◌, ◌≡◌, ◌⊎◌, bytes_key,
}
use fileflow.Common.Result.{
  >>=-ErrIs, >>=-eq-ok, ErrIs, Result, Result-cases, err, err-ne-ok, ok, ok-ErrIs, require,
  require-ErrIs, require-eq-ok, some_or, some_or-ErrIs, some_or-eq-ok,
}
use fileflow.Auth.Platform.{EcPublicJwk, Platform, PublicKey}
use fileflow.Auth.Jwk.{parse_jwk_bytes, validate_device_id_format, verify_signature}
use fileflow.Auth.Token.{TokenError, sign, version_device_ticket}
use fileflow.Auth.Challenge.{
  Challenge, ChallengeError, ChallengeStore, challenge_expired, challenge_not_found, consume,
  rand_failed,
}
use fileflow.Store.{Database, Device, get_device}
use fileflow.Auth.Session.{device_ticket_cookie}
use fileflow.Handler.Http.{
  IsRefusal, Request, Response, device_ok, is_post, method_not_allowed, write_error, write_json,
}
use fileflow.Handler.Api.{
  Handler, load_device, lookup_error-IsRefusal, map_err, map_err-ErrIs, map_err-eq-ok,
}
use fileflow.Handler.Api.Devices.{
  AttestBody, attest_body, consume_error, handle_device_attest, ticket_answer, ticket_for,
}

module _ (p : Platform) (db : Database) (h : Handler) where
  -- What a device must have done and be for a ticket: it posts the signature of the nonce of a
  -- challenge that was made for it and is in time, under the key that it is enrolled with.
  pub record IsAttested (body : AttestBody) (taken : Result ChallengeError Challenge) (s : db.State)
      : Type 0 where
    pub c : Challenge
    pub handed_out : taken ≡ ok c
    pub own : c.device_id ≡ body.device_id
    pub device : Device
    pub enrolled : get_device db body.device_id s ≡ ok device
    pub key : PublicKey
    pub jwk : EcPublicJwk
    pub parsed : parse_jwk_bytes p device.pub_jwk_json ≡ ok (key, jwk)
    pub signature : Bytes
    pub decoded : p.url_decode body.signature ≡ some signature
    pub signed : verify_signature p (some key) c.nonce signature ≡ true

  ticket_for-IsAttested :
      (body : AttestBody) (taken : Result ChallengeError Challenge) (now : ℕ) (s : db.State)
      (ticket : Bytes)
      → ticket_for p db h body taken now s ≡ ok ticket
      → IsAttested body taken s
        × (sign p h.token_secret body.device_id version_device_ticket h.device_ticket_ttl now
            ≡ ok ticket)
  unfolding ticket_for load_device
  ticket_for-IsAttested body taken now s ticket e =
      let (c, e₁, r₁) = >>=-eq-ok (map_err (consume_error p db h) taken) _ e in
      let (u₂, e₂, r₂) = >>=-eq-ok (require (bytes_beq c.device_id body.device_id) _) _ r₁ in
      let (d, e₃, r₃) = >>=-eq-ok (load_device db "Failed to load device" body.device_id s) _ r₂ in
      let ((key, jwk), e₄, r₄) = >>=-eq-ok (map_err _ (parse_jwk_bytes p d.pub_jwk_json)) _ r₃ in
      let (sg, e₅, r₅) = >>=-eq-ok (some_or (p.url_decode body.signature) _) _ r₄ in
      let (u₆, e₆, r₆) = >>=-eq-ok (require (verify_signature p (some key) c.nonce sg) _) _ r₅ in
      (
        record {
          c = c;
          handed_out = map_err-eq-ok _ taken e₁;
          own = (bytes_beq_iff _ _).0 (require-eq-ok _ _ e₂);
          device = d;
          enrolled = map_err-eq-ok _ (get_device db body.device_id s) e₃;
          key = key;
          jwk = jwk;
          parsed = map_err-eq-ok _ (parse_jwk_bytes p d.pub_jwk_json) e₄;
          signature = sg;
          decoded = some_or-eq-ok _ _ e₅;
          signed = require-eq-ok _ _ e₆;
        },
        map_err-eq-ok _ (sign p h.token_secret body.device_id 2 h.device_ticket_ttl now) r₆,
      )

  -- A request that the handler reads: it is posted, names a challenge, and its id is well-formed.
  pub record IsReadable (r : Request AttestBody) (body : AttestBody) : Type 0 where
    pub posted : is_post r.method ≡ true
    pub read : r.body ≡ some body
    pub well_formed :
        (not (bytes_beq body.challenge_id []) && validate_device_id_format body.device_id) ≡ true

  attest_body-IsReadable :
      (r : Request AttestBody) (body : AttestBody)
      → attest_body p db h r ≡ ok body
      → IsReadable r body
  unfolding attest_body
  attest_body-IsReadable r body e =
      let (u₁, e₁, r₁) = >>=-eq-ok (require (is_post r.method) method_not_allowed) _ e in
      let (b, e₂, r₂) = >>=-eq-ok (some_or r.body _) _ r₁ in
      let well : Bool =
        not (bytes_beq b.challenge_id []) && validate_device_id_format b.device_id in
      let (u₃, e₃, r₃) = >>=-eq-ok (require well _) _ r₂ in
      let same : b ≡ body = cc in
      record {
        posted = require-eq-ok _ _ e₁;
        read = some_or-eq-ok _ _ e₂ ∙ ap some same;
        well_formed = rw (← same) (require-eq-ok well _ e₃);
      }

  attest_body-ErrIs : (r : Request AttestBody) → ErrIs IsRefusal (attest_body p db h r)
  unfolding attest_body method_not_allowed write_error write_json
  attest_body-ErrIs r =
      >>=-ErrIs IsRefusal (require (is_post r.method) method_not_allowed) _
        (require-ErrIs IsRefusal _ _ (_, _, refl, refl))
        (λ _.
          >>=-ErrIs IsRefusal (some_or r.body _) _
            (some_or-ErrIs IsRefusal r.body _ (_, _, refl, refl))
            (λ body.
              >>=-ErrIs IsRefusal _ _ (require-ErrIs IsRefusal _ _ (_, _, refl, refl))
                (λ _. ok-ErrIs IsRefusal body)))

  consume_error-IsRefusal : (e : ChallengeError) → IsRefusal (consume_error p db h e)
  unfolding consume_error write_error write_json
  consume_error-IsRefusal challenge_expired = (_, _, refl, refl)
  consume_error-IsRefusal challenge_not_found = (_, _, refl, refl)
  consume_error-IsRefusal rand_failed = (_, _, refl, refl)

  ticket_for-ErrIs :
      (body : AttestBody) (taken : Result ChallengeError Challenge) (now : ℕ) (s : db.State)
      → ErrIs IsRefusal (ticket_for p db h body taken now s)
  unfolding ticket_for load_device write_error write_json
  ticket_for-ErrIs body taken now s =
      >>=-ErrIs IsRefusal (map_err (consume_error p db h) taken) _
        (map_err-ErrIs IsRefusal (consume_error p db h) taken consume_error-IsRefusal)
        (λ c. >>=-ErrIs IsRefusal _ _ (require-ErrIs IsRefusal _ _ (_, _, refl, refl)) (λ _.
          >>=-ErrIs IsRefusal (load_device db _ body.device_id s) _
            (map_err-ErrIs IsRefusal _ (get_device db body.device_id s) (lookup_error-IsRefusal _))
            (λ d.
              >>=-ErrIs IsRefusal (map_err _ (parse_jwk_bytes p d.pub_jwk_json)) _
                (map_err-ErrIs IsRefusal _ (parse_jwk_bytes p d.pub_jwk_json)
                  (λ _. (_, _, refl, refl)))
                (λ k.
                  >>=-ErrIs IsRefusal (some_or (p.url_decode body.signature) _) _
                    (some_or-ErrIs IsRefusal (p.url_decode body.signature) _ (_, _, refl, refl))
                    (λ sg.
                      >>=-ErrIs IsRefusal _ _ (require-ErrIs IsRefusal _ _ (_, _, refl, refl)) (λ _.
                        map_err-ErrIs IsRefusal _ (sign p _ _ _ _ now)
                          (λ _. (_, _, refl, refl))))))))

  attest_body-readable :
      (r : Request AttestBody) (body : AttestBody)
      → IsReadable r body
      → attest_body p db h r ≡ ok body
  unfolding attest_body
  attest_body-readable r body k = rw (attest_body, k.posted, k.read, k.well_formed)

  ticket_for-attested :
      (body : AttestBody) (taken : Result ChallengeError Challenge) (now : ℕ) (s : db.State)
      (ticket : Bytes)
      → IsAttested body taken s
      → sign p h.token_secret body.device_id version_device_ticket h.device_ticket_ttl now
        ≡ ok ticket
      → ticket_for p db h body taken now s ≡ ok ticket
  unfolding ticket_for load_device map_err
  ticket_for-attested body taken now s ticket a issued = rw (
    ticket_for,
    a.handed_out,
    a.own,
    (bytes_beq_iff body.device_id body.device_id).1 refl,
    load_device,
    a.enrolled,
    map_err,
    a.parsed,
    a.decoded,
    a.signed,
    issued,
  )

  unsigned :
      (body : AttestBody) (taken : Result ChallengeError Challenge) (now : ℕ) (s : db.State)
      (x : Response)
      → ticket_for p db h body taken now s ≡ err x
      → IsAttested body taken s
      → (y : TokenError) × (sign p h.token_secret body.device_id version_device_ticket
            h.device_ticket_ttl now
          ≡ err y)
  unsigned body taken now s x f a =
      elim (Result-cases
        (sign p h.token_secret body.device_id version_device_ticket h.device_ticket_ttl now)) [
          | inr (y, g) ↦ (y, g)
          | inl (ticket, g) ↦
              absurd (err-ne-ok (sym f ∙ ticket_for-attested body taken now s ticket a g))
        ]

  abbrev pub AttestOutcome :
      Request AttestBody → ℕ → db.State → ChallengeStore → Response → ChallengeStore → Type 0
  AttestOutcome r now s cs response cs' =
      (IsRefusal response × (cs' ≡ cs) × ((body : AttestBody) → IsReadable r body → ⊥))
      ⊎ ((body : AttestBody) × IsReadable r body
          × (cs' ≡ (consume cs body.challenge_id now).1)
          × ((IsRefusal response
                × (IsAttested body (consume cs body.challenge_id now).0 s
                    → (x : TokenError) × (sign p h.token_secret body.device_id version_device_ticket
                          h.device_ticket_ttl now
                        ≡ err x)))
              ⊎ ((ticket : Bytes) × IsAttested body (consume cs body.challenge_id now).0 s
                  × (sign p h.token_secret body.device_id version_device_ticket h.device_ticket_ttl
                        now
                      ≡ ok ticket)
                  × (response.answer ≡ device_ok)
                  × (response.set_cookies
                      ≡ device_ticket_cookie ticket h.device_ticket_ttl h.secure_cookies now
                        ∷ []))))

  -- A request to attest a device that is not readable is refused, sets no cookie, and changes no
  -- challenge. One that is readable takes the challenge that it names out of the store, whatever
  -- comes after. If that challenge is handed out, was made for the same device, and the request signs
  -- its nonce with the key that this device is enrolled with, it gets one cookie, with a ticket that
  -- is signed for that device, unless the signing itself fails; if not, it is refused and sets no
  -- cookie.
  pub handle_device_attest-IsAttested :
      (r : Request AttestBody) (now : ℕ) (s : db.State) (cs : ChallengeStore)
      → let (response, cs') = handle_device_attest p db h r now s cs in
        AttestOutcome r now s cs response cs'
  unfolding handle_device_attest ticket_answer write_json
  handle_device_attest-IsAttested r now s cs = elim (Result-cases (attest_body p db h r)) [
    | inr (x, e) ↦
        rw (handle_device_attest, e)
          (inl (
            attest_body-ErrIs r x e,
            refl,
            λ body k. err-ne-ok (sym e ∙ attest_body-readable r body k),
          ))
    | inl (body, e) ↦
        let taken : Result ChallengeError Challenge = (consume cs body.challenge_id now).0 in
        elim (Result-cases (ticket_for p db h body taken now s)) [
          | inr (x, f) ↦
              rw (handle_device_attest, e, f)
                (inr (
                  body,
                  attest_body-IsReadable r body e,
                  refl,
                  inl (ticket_for-ErrIs body taken now s x f, unsigned body taken now s x f),
                ))
          | inl (ticket, f) ↦
              let (attested, issued) = ticket_for-IsAttested body taken now s ticket f in
              rw (handle_device_attest, e, f)
                (inr (
                  body,
                  attest_body-IsReadable r body e,
                  refl,
                  inr (ticket, attested, issued, refl, refl),
                ))
        ]
  ]
