-- ===== src/Handler/Api/Devices.antt =====
-- internal/handler/api.go: the handlers that enroll a device, challenge it and issue its ticket.
-- Each makes its checks first; a check that fails is the answer.
use fileflow.Common.{
  Bytes, Option, [], bytes_beq, codes, none, not, some, ℕ, ◌&&◌, ◌/◌, ◌∷◌, bytes_key,
}
use fileflow.Common.Result.{Result, err, ok, require, some_or, ◌>>=◌, ◌>>◌}
use fileflow.Realtime.Events.{Fields}
use fileflow.Auth.Platform.{Platform}
use fileflow.Auth.Jwk.{
  equal_jwk, parse_jwk_bytes, parse_jwk_map, validate_device_id, validate_device_id_format,
  verify_signature,
}
use fileflow.Auth.Token.{sign, version_device_ticket}
use fileflow.Auth.Challenge.{
  Challenge, ChallengeError, ChallengeStore, challenge_expired, challenge_not_found, consume,
  create, rand_failed,
}
use fileflow.Auth.Session.{device_ticket_cookie}
use fileflow.Store.{Database, Device, StoreError, add_device, device_exists}
use fileflow.Handler.Http.{
  Request, Response, added, challenged, device_ok, is_post, method_not_allowed, write_error,
  write_json,
}
use fileflow.Handler.Api.{Handler, load_device, map_err}

pub record EnrollBody : Type 0 where
  pub device_id : Bytes
  pub pub_jwk : Option Fields
  pub label : Bytes

pub record ChallengeBody : Type 0 where
  pub device_id : Bytes
  pub pub_jwk : Option Fields

pub record AttestBody : Type 0 where
  pub challenge_id : Bytes
  pub device_id : Bytes
  pub signature : Bytes

module _ (p : Platform) (db : Database) (h : Handler) where
  -- `json.Marshal` writes a nil map as `null`.
  unfoldable pub marshal_pub_jwk : Option Fields → Option Bytes
  marshal_pub_jwk none = some (codes "null")
  marshal_pub_jwk (some fs) = p.marshal_map fs

  -- The device that a request wants to enroll.
  unfoldable pub device_to_add : Request EnrollBody → ℕ → Result Response Device
  unfolding write_error method_not_allowed is_post map_err marshal_pub_jwk
  device_to_add r now = do
    require (is_post r.method) method_not_allowed
    require
        (not (bytes_beq r.bootstrap_header []) && bytes_beq r.bootstrap_header h.bootstrap_token)
        (write_error 401 "INVALID_TOKEN" "Invalid bootstrap token")
    body ← some_or r.body (write_error 400 "INVALID_REQUEST" "Invalid JSON body")
    map_err (write_error 400 "INVALID_DEVICE_ID") (validate_device_id p body.device_id body.pub_jwk)
    jwk ←
        some_or (marshal_pub_jwk body.pub_jwk)
          (write_error 400 "INVALID_PUBLIC_KEY" "Failed to serialize public key")
    ok (record {
      device_id = body.device_id;
      pub_jwk_json = jwk;
      label = body.label;
      created_at = now / 1_000_000;
    })

  unfoldable pub added_answer : Result StoreError (Unit {0}) → Response
  unfolding write_json write_error
  added_answer (ok u) = write_json 200 added
  added_answer (err device_exists) = write_error 409 "DEVICE_EXISTS" "Device already enrolled"
  added_answer (err e) = write_error 500 "INTERNAL_ERROR" "Failed to add device"

  unfoldable pub handle_admin_devices : Request EnrollBody → ℕ → db.State → Response × db.State
  unfolding device_to_add added_answer
  handle_admin_devices r now s = elim (device_to_add r now) [
    | err response ↦ (response, s)
    | ok d ↦ let (result, s') = add_device db d s in (added_answer result, s')
  ]

  -- The device that asks for a challenge and is enrolled with the key that it gives.
  unfoldable pub device_to_challenge : Request ChallengeBody → db.State → Result Response Bytes
  unfolding write_error method_not_allowed is_post map_err load_device
  device_to_challenge r s = do
    require (is_post r.method) method_not_allowed
    body ← some_or r.body (write_error 400 "INVALID_REQUEST" "Invalid JSON body")
    require (validate_device_id_format body.device_id)
        (write_error 400 "INVALID_DEVICE_ID" "Invalid device ID format")
    (_, wanted) ←
        map_err (λ _. write_error 400 "INVALID_PUBLIC_KEY" "Invalid public key")
          (parse_jwk_map p body.pub_jwk)
    device ← load_device db "Failed to load device" body.device_id s
    let mismatch = write_error 400 "INVALID_PUBLIC_KEY" "Public key does not match enrollment"
    (_, stored) ← map_err (λ _. mismatch) (parse_jwk_bytes p device.pub_jwk_json)
    require (equal_jwk (some wanted) (some stored)) mismatch
    ok body.device_id

  unfoldable pub challenge_answer : Result ChallengeError Challenge → Response
  unfolding write_json write_error
  challenge_answer (ok c) = write_json 200 (challenged c.id (p.url_encode c.nonce))
  challenge_answer (err e) = write_error 500 "INTERNAL_ERROR" "Failed to create challenge"

  unfoldable pub handle_device_challenge :
      Request ChallengeBody
      → (random : Option Bytes) → (uuid : Bytes) → ℕ
      → db.State
      → ChallengeStore
      → Response × ChallengeStore
  unfolding device_to_challenge challenge_answer
  handle_device_challenge r random uuid now s cs = elim (device_to_challenge r s) [
    | err response ↦ (response, cs)
    | ok device_id ↦
        let (result, cs') = create cs device_id random uuid now in (challenge_answer result, cs')
  ]

  unfoldable pub attest_body : Request AttestBody → Result Response AttestBody
  unfolding write_error method_not_allowed is_post
  attest_body r = do
    require (is_post r.method) method_not_allowed
    body ← some_or r.body (write_error 400 "INVALID_REQUEST" "Invalid JSON body")
    require (not (bytes_beq body.challenge_id []) && validate_device_id_format body.device_id)
        (write_error 400 "INVALID_DEVICE_ID" "Invalid request")
    ok body

  unfoldable pub consume_error : ChallengeError → Response
  unfolding write_error
  consume_error challenge_expired = write_error 400 "CHALLENGE_EXPIRED" "Challenge expired"
  consume_error challenge_not_found = write_error 400 "CHALLENGE_EXPIRED" "Challenge expired"
  consume_error rand_failed = write_error 500 "INTERNAL_ERROR" "Failed to read challenge"

  -- The ticket that answers a challenge which was taken out of the store.
  unfoldable pub ticket_for :
      AttestBody → Result ChallengeError Challenge → ℕ → db.State → Result Response Bytes
  unfolding write_error map_err load_device consume_error
  ticket_for body taken now s = do
    challenge ← map_err consume_error taken
    require (bytes_beq challenge.device_id body.device_id)
        (write_error 400 "INVALID_DEVICE_ID" "Device mismatch")
    device ← load_device db "Failed to load device" body.device_id s
    (key, _) ←
        map_err (λ _. write_error 400 "INVALID_PUBLIC_KEY" "Invalid enrolled public key")
          (parse_jwk_bytes p device.pub_jwk_json)
    signature ←
        some_or (p.url_decode body.signature)
          (write_error 401 "INVALID_SIGNATURE" "Invalid signature")
    require (verify_signature p (some key) challenge.nonce signature)
        (write_error 401 "INVALID_SIGNATURE" "Signature verification failed")
    map_err (λ _. write_error 500 "INTERNAL_ERROR" "Failed to sign ticket")
        (sign p h.token_secret body.device_id version_device_ticket h.device_ticket_ttl now)

  unfoldable pub ticket_answer : Result Response Bytes → ℕ → Response
  unfolding write_json
  ticket_answer (err response) now = response
  ticket_answer (ok ticket) now = record (write_json 200 device_ok) {
    set_cookies = device_ticket_cookie ticket h.device_ticket_ttl h.secure_cookies now ∷ [];
  }

  -- The challenge is taken out of the store whatever comes after.
  unfoldable pub handle_device_attest :
      Request AttestBody → ℕ → db.State → ChallengeStore → Response × ChallengeStore
  unfolding attest_body ticket_for ticket_answer
  handle_device_attest r now s cs = elim (attest_body r) [
    | err response ↦ (response, cs)
    | ok body ↦
        let (taken, cs') = consume cs body.challenge_id now in
        (ticket_answer (ticket_for body taken now s) now, cs')
  ]
