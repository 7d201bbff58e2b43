-- ===== src/Handler/Api/Users.antt =====
-- internal/handler/api.go: the handlers that log a user in, say whether a session holds, count who
-- is online, and open a WebSocket.
use fileflow.Common.{
  Bool, Bytes, List, Option, String, [], bytes_beq, false, if◌then◌else◌, lookup, none, not, some,
  true, ℕ, ◌&&◌, ◌+◌, ◌∷◌, bytes_key,
}
use fileflow.Common.Result.{Result, err, ok, require, some_or, ◌>>◌, ◌>>=◌}
use fileflow.Limit.{ConnLimiter, IpLimiter, RateLimit, increment, ip_allow}
use fileflow.Realtime.Hub.{Hub, online_count}
use fileflow.Realtime.Client.{Client, new_client}
use fileflow.Auth.Platform.{Claims, Platform}
use fileflow.Auth.Jwk.{validate_device_id_format}
use fileflow.Auth.Token.{sign, verify_with_version, version_session}
use fileflow.Auth.Secret.{verify_secret}
use fileflow.Store.{Database}
use fileflow.Handler.Http.{
  Request, Response, answer_of, authed, is_post, method_not_allowed, presence, write_error,
  write_json,
}
use fileflow.Handler.Proxy.{Net, get_client_ip}
use fileflow.Handler.Api.{
  Handler, check_origin, load_device, map_err, session_name, ticket_error, verify_device_ticket,
}

pub record LoginBody : Type 0 where
  pub secret : Bytes
  pub device_id : Bytes

-- What becomes of a request for a WebSocket: an answer, a failed handshake, a connection that is
-- closed at once since there are too many, or a client that is registered and served.
pub data WsOutcome : Type 0 where
  answered : Response → WsOutcome
  upgrade_failed closed : WsOutcome
  connected : Client → WsOutcome

module _ (p : Platform) (db : Database) (h : Handler) where
  -- The checks of `handleLogin` after the body was read, but the one of the secret.
  unfoldable pub login_device :
      List (Bytes × Bytes) → LoginBody → ℕ → db.State → Result Response Bytes
  unfolding write_error map_err load_device ticket_error
  login_device cookies body now s = do
    device_id ← map_err (ticket_error p h) (verify_device_ticket p h cookies now)
    require (not (bytes_beq body.device_id []))
        (write_error 401 "DEVICE_REQUIRED" "Device ID is required")
    require (validate_device_id_format body.device_id)
        (write_error 400 "INVALID_DEVICE_ID" "Invalid device ID format")
    require (bytes_beq body.device_id device_id)
        (write_error 401 "DEVICE_TICKET_MISMATCH" "Device ticket mismatch")
    device ← load_device db "Internal server error" device_id s
    ok device_id

  -- A wrong secret is no error: the answer says that the user is not authenticated.
  unfoldable pub login_answer : Bytes → Bytes → ℕ → Response
  unfolding write_json write_error
  login_answer secret uuid now = elim (verify_secret p secret h.secret_hash) [
    | err e ↦ write_json 200 (authed false)
    | ok u ↦ elim (sign p h.token_secret uuid version_session h.session_ttl now) [
      | err e ↦ write_error 500 "INTERNAL_ERROR" "Failed to generate token"
      | ok token ↦ record (write_json 200 (authed true)) {
        set_cookies =
            record {
              name = session_name;
              value = token;
              expires = now + h.session_ttl;
              http_only = true;
              secure = h.secure_cookies;
            }
            ∷ [];
      }
    ]
  ]

  -- `handleLogin` after the limiter let the request pass.
  unfoldable pub login_response :
      Request LoginBody → Bytes → ℕ → db.State → Result Response Response
  unfolding login_device login_answer write_error
  login_response r uuid now s = do
    body ← some_or r.body (write_error 400 "INVALID_REQUEST" "Invalid JSON body")
    device_id ← login_device r.cookies body now s
    ok (login_answer body.secret uuid now)

  unfoldable pub session_claims : List (Bytes × Bytes) → ℕ → Result String Claims
  unfolding map_err
  session_claims cookies now = do
    cookie ← some_or (lookup session_name cookies) "Session required"
    map_err (λ _. "Invalid session")
        (verify_with_version p h.token_secret cookie version_session now)

  unfoldable pub handle_session : List (Bytes × Bytes) → ℕ → Response
  unfolding session_claims write_json
  handle_session cookies now = elim (session_claims cookies now) [
    | err e ↦ write_json 200 (authed false)
    | ok claims ↦ write_json 200 (authed true)
  ]

  unfoldable pub unauthorized : String → Response
  unfolding write_error
  unauthorized message = write_error 401 "UNAUTHORIZED" message

  unfoldable pub handle_presence : List (Bytes × Bytes) → ℕ → Hub → Response
  unfolding session_claims write_json unauthorized
  handle_presence cookies now hub = elim (session_claims cookies now) [
    | err e ↦ unauthorized e
    | ok claims ↦ write_json 200 (presence (online_count hub) 2)
  ]

  -- The claims of the session for which a WebSocket may be opened.
  unfoldable pub socket_claims : List (Bytes × Bytes) → ℕ → db.State → Result Response Claims
  unfolding map_err load_device session_claims unauthorized ticket_error
  socket_claims cookies now s = do
    device_id ← map_err (ticket_error p h) (verify_device_ticket p h cookies now)
    device ← load_device db "Internal server error" device_id s
    map_err unauthorized (session_claims cookies now)

module _ (p : Platform) (db : Database) (rl : RateLimit) (net : Net) (h : Handler) where
  unfoldable pub handle_login :
      List net.Network
      → Request LoginBody
      → (uuid : Bytes) → ℕ
      → db.State
      → IpLimiter rl
      → Response × IpLimiter rl
  unfolding login_response is_post method_not_allowed write_error
  handle_login trusted r uuid now s l =
      if is_post r.method
      then (let (allowed, l') = ip_allow rl l (get_client_ip net trusted r.origin) now in
          (
            answer_of (
                require allowed (write_error 429 "RATE_LIMITED" "Too many requests")
                >> login_response p db h r uuid now s),
            l',
          ))
      else (method_not_allowed, l)

  -- `conns` is none where the handler was made without a limiter; `pointer` is the number of the
  -- new client, and `handshake` is whether the WebSocket library accepts the request otherwise.
  unfoldable pub take_slot : Option ConnLimiter → Bytes → Bool × Option ConnLimiter
  take_slot none ip = (true, none)
  take_slot (some conns) ip = let (taken, conns') = increment conns ip in (taken, some conns')

  unfoldable pub handle_web_socket :
      List net.Network
      → Request (Unit {0})
      → (handshake : Bool) → (pointer : ℕ) → ℕ
      → db.State
      → Option ConnLimiter
      → WsOutcome × Option ConnLimiter
  unfolding socket_claims take_slot
  handle_web_socket trusted r handshake pointer now s conns =
      elim (socket_claims p db h r.cookies now s) [
        | err response ↦ (answered response, conns)
        | ok claims ↦
            if handshake && check_origin h r.origin_header
            then (let ip = get_client_ip net trusted r.origin in
                let (taken, conns') = take_slot conns ip in
                (
                  if taken
                      then connected (new_client pointer claims.sid ip h.max_ws_msg_bytes)
                      else closed,
                  conns',
                ))
            else (upgrade_failed, conns)
      ]
