-- ===== src/Handler/Api/Tests.antt =====
-- Runs of the handlers of internal/handler/api.go on the sample server.
use fileflow.Common.{
  Bytes, Option, [], arith, codes, lookup, pos, refl, some, split, trim_left, trim_space, true,
  ◌++◌, ◌∷◌, ◌≡◌, bytes_key,
}
use fileflow.Common.Result.{ok}
use fileflow.Realtime.Events.{end}
use fileflow.Realtime.Client.{new_client}
use fileflow.Limit.{ConnLimiter, IpLimiter, increment, ip_allow, new_conn_limiter, new_ip_limiter}
use fileflow.Auth.Sample.{sample, sample-PlatformLaws, sample_jwk}
use fileflow.Auth.Jwk.{parse_jwk_bytes, parse_jwk_map, validate_device_id_format, verify_signature}
use fileflow.Auth.Challenge.{ChallengeStore, create, new_challenge_store}
use fileflow.Auth.Challenge.Once.{cleans, run}
use fileflow.Auth.Token.{verify, verify_with_version}
use fileflow.Auth.Secret.{verify_secret}
use fileflow.Auth.Session.{device_ticket_cookie}
use fileflow.Store.{get_device}
use fileflow.Store.Sample.{in_memory}
use fileflow.Handler.Http.{Request, authed, challenged, device_ok, is_post, write_error, write_json}
use fileflow.Handler.Proxy.{get_client_ip}
use fileflow.Handler.Api.{
  check_origin, device_ticket_name, map_err, session_name, verify_device_ticket,
}
use fileflow.Handler.Api.Devices.{
  AttestBody, ChallengeBody, EnrollBody, attest_body, handle_admin_devices, handle_device_attest,
  handle_device_challenge,
}
use fileflow.Handler.Api.Users.{
  LoginBody, connected, handle_login, handle_session, handle_web_socket, take_slot,
}
use fileflow.Handler.Api.Replay
use fileflow.Handler.Api.Replay.{handle_device_attest_once, sweeps}
use fileflow.Handler.Api.Tickets.{AttestOutcome, handle_device_attest-IsAttested}
use fileflow.Handler.Api.Admission.{handle_device_attest-handle_device_challenge}
use fileflow.Handler.Api.Enrollment.{EnrollOutcome, handle_admin_devices-MayEnroll}
use fileflow.Handler.Api.Logins.{LoginOutcome, handle_login-IsLogin}
use fileflow.Handler.Api.Sockets.{SocketOutcome, handle_web_socket-MayConnect}
use fileflow.Handler.Api.Visits.{handle_web_socket-handle_login}
use fileflow.Handler.Sample.{
  phone, phone_id, posts, proxy, server, small_net, tables, through_proxy, ticket, tokens,
}

-- The phone asks for a challenge and posts the signature of the nonce.
abbrev asks : Request ChallengeBody
asks = posts (record { device_id = phone_id; pub_jwk = some end })

abbrev reply : AttestBody
reply = record {
  challenge_id = codes "u1";
  device_id = phone_id;
  signature = sample.url_encode (codes "nonce");
}

handle_device_attest-handle_device_challenge_example :
    let (first, cs') =
      handle_device_challenge sample in_memory server asks
        (some (codes "nonce"))
        (codes "u1")
        10
        tables
        (new_challenge_store 60) in
    let (second, spent) =
      handle_device_attest sample in_memory server
        (posts reply)
        65
        tables
        (run cs' (cleans 60 ∷ [])) in
    (first.answer ≡ challenged (codes "u1") (sample.url_encode (codes "nonce")))
    × (second.answer ≡ device_ok)
    × (ticket : Bytes) × (second.set_cookies
        ≡ device_ticket_cookie ticket 9_000_000_000 true 65 ∷ [])
    × (verify_device_ticket sample server ((device_ticket_name, ticket) ∷ []) 8_000_000_000
        ≡ ok phone_id)
unfolding get_device parse_jwk_bytes parse_jwk_map verify_signature lookup new_challenge_store
    validate_device_id_format is_post
handle_device_attest-handle_device_challenge_example =
    handle_device_attest-handle_device_challenge sample in_memory server phone_id phone _ sample_jwk
      tables refl refl refl sample-PlatformLaws asks _ _ (codes "nonce") (codes "u1") 10
      (new_challenge_store 60) (cleans 60 ∷ []) (posts reply) reply (codes "nonce") 65 8_000_000_000
      refl refl refl refl (λ e. cc) (omega arith, tt) refl refl refl refl refl refl (omega arith)
      (omega arith)

abbrev challenges : ChallengeStore
challenges = (create (new_challenge_store 60) phone_id (some (codes "nonce")) (codes "u1") 10).1

handle_device_attest-IsAttested_example :
    let (response, cs') =
      handle_device_attest sample in_memory server (posts reply) 65 tables challenges in
    AttestOutcome sample in_memory server (posts reply) 65 tables challenges response cs'
handle_device_attest-IsAttested_example =
    handle_device_attest-IsAttested sample in_memory server (posts reply) 65 tables challenges

-- The phone's answer is caught and sent again.
handle_device_attest_once_example :
    let cs' =
      Replay.serve_all sample in_memory server
        (handle_device_attest sample in_memory server (posts reply) 65 tables challenges).1
        (sweeps 70 ∷ []) in
    handle_device_attest sample in_memory server (posts reply) 80 tables cs'
    ≡ (write_error 400 "CHALLENGE_EXPIRED" "Challenge expired", cs')
unfolding attest_body validate_device_id_format is_post
handle_device_attest_once_example =
    handle_device_attest_once sample in_memory server (posts reply) (posts reply) 65 80 tables
      tables challenges (sweeps 70 ∷ []) reply reply refl refl refl (tt, tt)

abbrev tablet : EnrollBody
tablet = record { device_id = codes "device-0002"; pub_jwk = some end; label = codes "tablet" }

handle_admin_devices-MayEnroll_example :
    let (response, s') = handle_admin_devices sample in_memory server (posts tablet) 10 tables in
    EnrollOutcome sample in_memory server (posts tablet) 10 tables response s'
handle_admin_devices-MayEnroll_example =
    handle_admin_devices-MayEnroll sample in_memory server (posts tablet) 10 tables

abbrev secret : LoginBody
secret = record { secret = codes "pw"; device_id = phone_id }

abbrev limiter : IpLimiter tokens
limiter = new_ip_limiter tokens tt 10

handle_login-IsLogin_example :
    let (response, l') =
      handle_login sample in_memory tokens small_net server
        (proxy ∷ [])
        (posts secret)
        (codes "u2")
        70
        tables
        limiter in
    LoginOutcome sample in_memory tokens small_net server
      (proxy ∷ [])
      (posts secret)
      (codes "u2")
      70
      tables
      limiter
      response
      l'
handle_login-IsLogin_example =
    handle_login-IsLogin sample in_memory tokens small_net server (proxy ∷ []) (posts secret)
      (codes "u2") 70 tables limiter

-- A request with the session of that login and the ticket.
abbrev session_payload : Bytes
session_payload = sample.url_encode (0 ∷ 1 ∷ 0 ∷ 0 ∷ 0 ∷ 1 ∷ codes "u2")

abbrev visits : Request (Unit {0})
visits = record (posts tt) {
  cookies =
      (session_name, session_payload ++ b'.' ∷ sample.url_encode (codes "k" ++ session_payload))
      ∷ (posts tt).cookies;
}

connects :
    (handle_web_socket sample in_memory tokens small_net server
      (proxy ∷ [])
      visits
      true
      1
      70
      tables
      (some (new_conn_limiter 2 3))).0
    ≡ connected (new_client 1 (codes "u2") (codes "1.2.3.4") (pos 0))
unfolding handle_web_socket verify_device_ticket verify_with_version verify split lookup
    validate_device_id_format map_err get_client_ip trim_space trim_left increment new_conn_limiter
    check_origin get_device
connects = refl

handle_web_socket-MayConnect_example :
    let (outcome, conns') =
      handle_web_socket sample in_memory tokens small_net server
        (proxy ∷ [])
        visits
        true
        1
        70
        tables
        (some (new_conn_limiter 2 3)) in
    SocketOutcome sample in_memory tokens small_net server
      (proxy ∷ [])
      visits
      true
      1
      70
      tables
      (some (new_conn_limiter 2 3))
      outcome
      conns'
handle_web_socket-MayConnect_example =
    handle_web_socket-MayConnect sample in_memory tokens small_net server (proxy ∷ []) visits true 1
      70 tables (some (new_conn_limiter 2 3))

abbrev conns : Option ConnLimiter
conns = some (new_conn_limiter 2 3)

-- The login with which a session starts that opens a WebSocket.
accepts_ticket : verify_device_ticket sample server (posts tt).cookies 70 ≡ ok phone_id
unfolding verify_device_ticket verify_with_version verify split lookup validate_device_id_format
    map_err
accepts_ticket = refl

accepts_secret : verify_secret sample (codes "pw") server.secret_hash ≡ ok tt
unfolding verify_secret split
accepts_secret = refl

has_slot :
    (take_slot sample in_memory tokens small_net server conns
      (get_client_ip small_net (proxy ∷ []) through_proxy)).0
    ≡ true
unfolding take_slot increment new_conn_limiter lookup
has_slot = refl

has_request :
    (ip_allow tokens limiter (get_client_ip small_net (proxy ∷ []) through_proxy) 70).0 ≡ true
unfolding ip_allow new_ip_limiter lookup
has_request = refl

handle_web_socket-handle_login_example :
    let (response, l') =
      handle_login sample in_memory tokens small_net server
        (proxy ∷ [])
        (posts secret)
        (codes "u2")
        70
        tables
        limiter in
    (response.answer ≡ authed true)
    × (token : Bytes) × (response.set_cookies
        ≡ record {
          name = session_name;
          value = token;
          expires = 1_000_000_070;
          http_only = true;
          secure = true;
        }
          ∷ [])
    × (handle_session sample in_memory server
          ((session_name, token) ∷ (device_ticket_name, ticket) ∷ [])
          70
        ≡ write_json 200 (authed true))
    × ((handle_web_socket sample in_memory tokens small_net server
          (proxy ∷ [])
          (record (posts tt) { cookies = (session_name, token) ∷ (posts tt).cookies })
          true
          1
          70
          tables
          conns).0
        ≡ connected (
            new_client 1 (codes "u2") (get_client_ip small_net (proxy ∷ []) through_proxy) (pos 0)))
unfolding get_device lookup check_origin validate_device_id_format is_post
handle_web_socket-handle_login_example =
    handle_web_socket-handle_login sample in_memory server phone_id phone refl sample-PlatformLaws
      tokens small_net (proxy ∷ []) (posts secret) secret (codes "u2") 70 tables limiter (posts tt)
      1 70 tables conns (omega arith, (omega arith, tt)) refl refl refl has_request accepts_ticket
      refl accepts_secret (omega arith) accepts_ticket refl refl has_slot
