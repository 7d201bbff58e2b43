-- ===== src/Handler/Api/Visits.antt =====
-- internal/handler/api.go: an enrolled device with its ticket and the right secret logs in, and the
-- session that it gets opens a WebSocket.
use fileflow.Common.{
  All, Bytes, List, Option, [], arith, bytes_beq, bytes_beq_iff, false, leb, lookup, refl, some,
  true, ℕ, ◌+◌, ◌<◌, ◌∙◌, ◌∷◌, ◌≡◌, ◌≤◌, bytes_key,
}
use fileflow.Common.Result.{ok}
use fileflow.Limit.{ConnLimiter, IpLimiter, RateLimit, ip_allow}
use fileflow.Realtime.Client.{new_client}
use fileflow.Auth.Platform.{Claims, Platform, PlatformLaws}
use fileflow.Auth.Jwk.{validate_device_id_format}
use fileflow.Auth.Token.{claims_of, unix, verify_with_version, version_session}
use fileflow.Auth.Token.Laws.{verify_with_version-sign}
use fileflow.Auth.Secret.{verify_secret}
use fileflow.Store.{Database, Device, get_device}
use fileflow.Handler.Http.{Request, Response, authed, is_post, write_json}
use fileflow.Handler.Proxy.{Net, get_client_ip}
use fileflow.Handler.Api.{
  Handler, check_origin, load_device, map_err, session_name, verify_device_ticket,
}
use fileflow.Handler.Api.Users.{
  LoginBody, connected, handle_login, handle_session, handle_web_socket, login_answer, login_device,
  login_response, session_claims, socket_claims, take_slot,
}

some_id : (id : Bytes) → validate_device_id_format id ≡ true → bytes_beq id [] ≡ false
unfolding validate_device_id_format
some_id [] e = cc
some_id (c ∷ id) e = refl

module _ (p : Platform) (db : Database) (h : Handler) (id : Bytes) (device : Device)
    (well_formed : validate_device_id_format id ≡ true) where
  pub login_device-enrolled :
      (cookies : List (Bytes × Bytes)) (body : LoginBody) (now : ℕ) (s : db.State)
      → verify_device_ticket p h cookies now ≡ ok id
      → body.device_id ≡ id
      → get_device db id s ≡ ok device
      → login_device p db h cookies body now s ≡ ok id
  unfolding login_device load_device map_err
  login_device-enrolled cookies body now s ticket same enrolled = rw (
    login_device,
    ticket,
    map_err,
    same,
    some_id id well_formed,
    well_formed,
    (bytes_beq_iff id id).1 refl,
    load_device,
    enrolled,
  )

  session_claims-accepted :
      (token : Bytes) (cookies : List (Bytes × Bytes)) (later : ℕ) (claims : Claims)
      → verify_with_version p h.token_secret token version_session later ≡ ok claims
      → session_claims p db h ((session_name, token) ∷ cookies) later ≡ ok claims
  unfolding session_claims lookup map_err
  session_claims-accepted token cookies later claims accepted = rw (session_claims, accepted)

  pub socket_claims-accepted :
      (token : Bytes) (cookies : List (Bytes × Bytes)) (later : ℕ) (s : db.State) (claims : Claims)
      → verify_device_ticket p h cookies later ≡ ok id
      → get_device db id s ≡ ok device
      → verify_with_version p h.token_secret token version_session later ≡ ok claims
      → socket_claims p db h ((session_name, token) ∷ cookies) later s ≡ ok claims
  unfolding socket_claims lookup map_err load_device verify_device_ticket
  socket_claims-accepted token cookies later s claims ticket enrolled accepted =
      let other : verify_device_ticket p h ((session_name, token) ∷ cookies) later ≡ ok id =
        ticket in
      let session = session_claims-accepted token cookies later claims accepted in
      rw (socket_claims, other, map_err, load_device, enrolled, session)

  -- A posted login for the well-formed id of an enrolled device, with that device's ticket, a right
  -- secret and a request left for its address, succeeds and gives a session, whose identifier is any
  -- ASCII text. Until the session's end, a request with its cookie is authenticated; and if that
  -- request has a ticket of the device, which is still enrolled as it was, its origin is allowed,
  -- the handshake succeeds and a slot is free, it opens a WebSocket under the session's identifier.
  pub handle_web_socket-handle_login :
      (laws : PlatformLaws p) (rl : RateLimit) (net : Net) (trusted : List net.Network)
      (r : Request LoginBody) (body : LoginBody) (uuid : Bytes) (now : ℕ) (s : db.State)
      (l : IpLimiter rl) (w : Request (Unit {0})) (pointer later : ℕ) (s' : db.State)
      (conns : Option ConnLimiter)
      → All (λ b. b < 128) uuid
      → is_post r.method ≡ true
      → r.body ≡ some body
      → body.device_id ≡ id
      → (ip_allow rl l (get_client_ip net trusted r.origin) now).0 ≡ true
      → verify_device_ticket p h r.cookies now ≡ ok id
      → get_device db id s ≡ ok device
      → verify_secret p body.secret h.secret_hash ≡ ok tt
      → unix later ≤ unix (now + h.session_ttl)
      → verify_device_ticket p h w.cookies later ≡ ok id
      → get_device db id s' ≡ ok device
      → check_origin h w.origin_header ≡ true
      → (take_slot p db rl net h conns (get_client_ip net trusted w.origin)).0 ≡ true
      → let (response, l') = handle_login p db rl net h trusted r uuid now s l in
        (response.answer ≡ authed true)
        × (token : Bytes) × (response.set_cookies
            ≡ record {
              name = session_name;
              value = token;
              expires = now + h.session_ttl;
              http_only = true;
              secure = h.secure_cookies;
            }
              ∷ [])
        × (handle_session p db h ((session_name, token) ∷ w.cookies) later
            ≡ write_json 200 (authed true))
        × ((handle_web_socket p db rl net h trusted
              (record w { cookies = (session_name, token) ∷ w.cookies })
              true
              pointer
              later
              s'
              conns).0
            ≡ connected
                (new_client pointer uuid (get_client_ip net trusted w.origin) h.max_ws_msg_bytes))
  unfolding handle_login login_response login_answer handle_session handle_web_socket write_json
  handle_web_socket-handle_login laws rl net trusted r body uuid now s l w pointer later s' conns
        ascii posted read same allowed ticket enrolled right early ticket' enrolled' origin free =
      let (token, issued, accepted) =
        verify_with_version-sign p laws h.token_secret uuid version_session h.session_ttl now
          ascii in
      let timely : leb (unix later) (unix (now + h.session_ttl)) ≡ true = ground arith in
      let claims : Claims = claims_of uuid version_session h.session_ttl now in
      let good : verify_with_version p h.token_secret token version_session later ≡ ok claims =
        accepted version_session later ∙ rw timely in
      let from_device = login_device-enrolled r.cookies body now s ticket same enrolled in
      let answer : Response = record (write_json 200 (authed true)) {
        set_cookies =
            record {
              name = session_name;
              value = token;
              expires = now + h.session_ttl;
              http_only = true;
              secure = h.secure_cookies;
            }
            ∷ [];
      } in
      let answers : login_answer p db h body.secret uuid now ≡ answer =
        rw (login_answer, right, issued) in
      let logs_in : login_response p db h r uuid now s ≡ ok answer =
        rw (login_response, read, from_device, answers) in
      let first : (handle_login p db rl net h trusted r uuid now s l).0 ≡ answer =
        rw (handle_login, posted, allowed, logs_in) in
      rw first (
        refl,
        token,
        refl,
        rw (handle_session, session_claims-accepted token w.cookies later claims good),
        rw (
          handle_web_socket,
          socket_claims-accepted token w.cookies later s' claims ticket' enrolled' good,
          origin,
          free,
        ),
      )
