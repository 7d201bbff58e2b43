-- ===== src/Handler/Api/Admission.antt =====
-- internal/handler/api.go: an enrolled device gets in. From the request for a challenge to the
-- ticket, through both handlers and whatever other requests do to the store in between.
use fileflow.Common.{
  All, Bool-cases, Bytes, List, [], all, arith, bytes_beq, bytes_beq_iff, inl, inr, leb, lookup,
  refl, some, true, ℕ, ◌+◌, ◌<◌, ◌∙◌, ◌∷◌, ◌≡◌, ◌≢◌, ◌≤◌, bytes_key,
}
use fileflow.Common.Result.{ok}
use fileflow.Auth.Platform.{Claims, EcPublicJwk, Platform, PlatformLaws, PublicKey}
use fileflow.Auth.Jwk.{
  is_id_char, parse_jwk_bytes, parse_jwk_map, validate_device_id_format, verify_signature,
}
use fileflow.Auth.Jwk.Keys.{equal_jwk_iff}
use fileflow.Auth.Challenge.Once.{Call, Spares, consume-create, run}
use fileflow.Auth.Challenge.{Challenge, ChallengeStore, consume, create}
use fileflow.Auth.Session.{device_ticket_cookie}
use fileflow.Auth.Token.Laws.{verify_with_version-sign}
use fileflow.Auth.Token.{claims_of, sign, unix, verify_with_version, version_device_ticket}
use fileflow.Store.{Database, Device, get_device}
use fileflow.Handler.Http.{Request, challenged, device_ok, is_post, write_json}
use fileflow.Handler.Api.{Handler, device_ticket_name, load_device, map_err, verify_device_ticket}
use fileflow.Handler.Api.Devices.{
  AttestBody, ChallengeBody, attest_body, challenge_answer, device_to_challenge,
  handle_device_attest, handle_device_challenge, ticket_answer, ticket_for,
}

-- Every character of an id is ASCII.
id_char-ascii : (c : ℕ) → is_id_char c ≡ true → c < 128
id_char-ascii c e = ground arith

all_id_chars-ascii : (s : Bytes) → all is_id_char s ≡ true → All (λ b. b < 128) s
all_id_chars-ascii [] e = tt
all_id_chars-ascii (c ∷ s) e = (id_char-ascii c (ground arith), all_id_chars-ascii s (ground arith))

pub format-ascii : (id : Bytes) → validate_device_id_format id ≡ true → All (λ b. b < 128) id
unfolding validate_device_id_format
format-ascii id e = all_id_chars-ascii id (ground (arith, e))

module _ (p : Platform) (db : Database) (h : Handler) (id : Bytes) (device : Device)
    (key : PublicKey) (jwk : EcPublicJwk) (s : db.State)
    (well_formed : validate_device_id_format id ≡ true) (enrolled : get_device db id s ≡ ok device)
    (parsed : parse_jwk_bytes p device.pub_jwk_json ≡ ok (key, jwk)) where
  device_to_challenge-enrolled :
      (r : Request ChallengeBody) (body : ChallengeBody) (k : PublicKey)
      → is_post r.method ≡ true
      → r.body ≡ some body
      → body.device_id ≡ id
      → parse_jwk_map p body.pub_jwk ≡ ok (k, jwk)
      → device_to_challenge p db h r s ≡ ok id
  unfolding device_to_challenge load_device map_err
  device_to_challenge-enrolled r body k posted read same given = rw (
    device_to_challenge,
    posted,
    read,
    same,
    well_formed,
    given,
    load_device,
    enrolled,
    map_err,
    parsed,
    (equal_jwk_iff (some jwk) (some jwk)).1 (jwk, refl, refl),
  )

  ticket_for-enrolled :
      (body : AttestBody) (c : Challenge) (signature ticket : Bytes) (now : ℕ)
      → body.device_id ≡ id
      → c.device_id ≡ id
      → p.url_decode body.signature ≡ some signature
      → verify_signature p (some key) c.nonce signature ≡ true
      → sign p h.token_secret id version_device_ticket h.device_ticket_ttl now ≡ ok ticket
      → ticket_for p db h body (ok c) now s ≡ ok ticket
  unfolding ticket_for load_device map_err
  ticket_for-enrolled body c signature ticket now same own decoded signed issued = rw (
    ticket_for,
    own,
    same,
    (bytes_beq_iff id id).1 refl,
    load_device,
    enrolled,
    map_err,
    parsed,
    decoded,
    signed,
    issued,
  )

  attest_body-enrolled :
      (a : Request AttestBody) (reply : AttestBody) (uuid : Bytes)
      → is_post a.method ≡ true
      → a.body ≡ some reply
      → reply.challenge_id ≡ uuid
      → reply.device_id ≡ id
      → uuid ≢ []
      → attest_body p db h a ≡ ok reply
  unfolding attest_body
  attest_body-enrolled a reply uuid posted read asked same fresh =
      elim (Bool-cases (bytes_beq uuid [])) [
        | inl empty ↦ absurd (fresh ((bytes_beq_iff uuid []).0 empty))
        | inr some_id ↦ rw (attest_body, posted, read, asked, same, some_id, well_formed)
      ]

  accepted-enrolled :
      (ticket : Bytes) (later : ℕ) (claims : Claims)
      → verify_with_version p h.token_secret ticket version_device_ticket later ≡ ok claims
      → claims.sid ≡ id
      → verify_device_ticket p h ((device_ticket_name, ticket) ∷ []) later ≡ ok id
  unfolding verify_device_ticket map_err lookup
  accepted-enrolled ticket later claims accepted subject =
      rw (verify_device_ticket, accepted, map_err, subject, well_formed)

  -- Let a device be enrolled under a well-formed id, with a stored key that parses. If it asks for a
  -- challenge with this key, it is given one, under any identifier that is not empty. If it posts
  -- the signature of the nonce up to the challenge's end, it gets a ticket, whatever challenges
  -- under other identifiers were made and consumed in between, and however often the store was
  -- cleaned up to that end; and the ticket is accepted as this device's until its own end.
  pub handle_device_attest-handle_device_challenge :
      (laws : PlatformLaws p) (r : Request ChallengeBody) (body : ChallengeBody) (k : PublicKey)
      (nonce uuid : Bytes) (made : ℕ) (cs : ChallengeStore) (ks : List Call)
      (a : Request AttestBody) (reply : AttestBody) (signature : Bytes) (now later : ℕ)
      → is_post r.method ≡ true
      → r.body ≡ some body
      → body.device_id ≡ id
      → parse_jwk_map p body.pub_jwk ≡ ok (k, jwk)
      → uuid ≢ []
      → All (Spares uuid (made + cs.ttl)) ks
      → is_post a.method ≡ true
      → a.body ≡ some reply
      → reply.challenge_id ≡ uuid
      → reply.device_id ≡ id
      → p.url_decode reply.signature ≡ some signature
      → verify_signature p (some key) nonce signature ≡ true
      → now ≤ made + cs.ttl
      → unix later ≤ unix (now + h.device_ticket_ttl)
      → let (first, cs') = handle_device_challenge p db h r (some nonce) uuid made s cs in
        let (second, spent) = handle_device_attest p db h a now s (run cs' ks) in
        (first.answer ≡ challenged uuid (p.url_encode nonce))
        × (second.answer ≡ device_ok)
        × (ticket : Bytes) × (second.set_cookies
            ≡ device_ticket_cookie ticket h.device_ticket_ttl h.secure_cookies now ∷ [])
        × (verify_device_ticket p h ((device_ticket_name, ticket) ∷ []) later ≡ ok id)
  unfolding handle_device_challenge handle_device_attest challenge_answer ticket_answer write_json
      create
  handle_device_attest-handle_device_challenge laws r body k nonce uuid made cs ks a reply signature
        now later posted read same given fresh spared posted' read' asked same' decoded signed
        in_time early =
      let wanted = device_to_challenge-enrolled r body k posted read same given in
      let (c, made_c, own, its_nonce, handed) =
        consume-create cs id nonce uuid made ks now spared in
      let (ticket, issued, accepted) =
        verify_with_version-sign p laws h.token_secret id version_device_ticket h.device_ticket_ttl
          now (format-ascii id well_formed) in
      let st : ChallengeStore = (create cs id (some nonce) uuid made).1 in
      let handed_out : (consume (run st ks) uuid now).0 ≡ ok c =
        let t : leb now (made + cs.ttl) ≡ true = ground arith in rw t at handed in
      let first : handle_device_challenge p db h r (some nonce) uuid made s cs
          ≡ (write_json 200 (challenged uuid (p.url_encode nonce)), st) =
        rw (handle_device_challenge, wanted) in
      let second : handle_device_attest p db h a now s (run st ks)
          ≡ (ticket_answer p db h (ok ticket) now, (consume (run st ks) uuid now).1) =
        rw (
          handle_device_attest,
          attest_body-enrolled a reply uuid posted' read' asked same' fresh,
          asked,
          handed_out,
          ticket_for-enrolled reply c signature ticket now same' own decoded (rw its_nonce signed)
              issued,
        ) in
      let timely : leb (unix later) (unix (now + h.device_ticket_ttl)) ≡ true = ground arith in
      let good : verify_with_version p h.token_secret ticket version_device_ticket later
          ≡ ok (claims_of id version_device_ticket h.device_ticket_ttl now) =
        accepted version_device_ticket later ∙ rw timely in
      rw (first, second)
        (
          refl,
          refl,
          ticket,
          refl,
          accepted-enrolled ticket later
              (claims_of id version_device_ticket h.device_ticket_ttl now) good refl,
        )
