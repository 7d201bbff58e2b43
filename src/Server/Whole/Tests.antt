-- ===== src/Server/Whole/Tests.antt =====
-- A whole run: the server starts on an empty database, and a phone comes to its WebSocket.
use fileflow.Common.{
  Bool-cases, Bytes, List, [], arith, bytes_beq, codes, has_byte, if◌then◌else◌, inl, inr, lookup,
  none, pos, put, refl, some, split, trim_left, trim_space, true, ◌++◌, ◌∷◌, ◌≡◌, ◌≢◌, ◌⊎◌,
  bytes_key,
}
use fileflow.Common.Result.{ok}
use fileflow.Limit.{ip_allow, new_conn_limiter, new_ip_limiter}
use fileflow.Auth.Sample.{sample, sample-PlatformLaws}
use fileflow.Auth.Jwk.{
  equal_jwk, parse_jwk_bytes, parse_jwk_map, validate_device_id, validate_device_id_format,
  verify_signature,
}
use fileflow.Auth.Secret.{verify_secret}
use fileflow.Auth.Session.{device_ticket_cookie}
use fileflow.Auth.Token.{sign, verify, verify_with_version}
use fileflow.Auth.Challenge.{create, consume, new_challenge_store}
use fileflow.Store.{Device, add_device, get_device}
use fileflow.Store.Sample.{Tables, file_of, file_of-DriverLaws, in_memory, in_memory-DatabaseLaws}
use fileflow.Store.Open.{migrate, new_store}
use fileflow.Server.{Env, Readers, Server, get_env, load_config, start}
use fileflow.Server.Lifetime.{database_of}
use fileflow.Server.Whole.{start-IsBacked, world_of}
use fileflow.Handler.Proxy.{get_client_ip, set_trusted_proxies}
use fileflow.Handler.Http.{Request, is_post}
use fileflow.Handler.Api.{
  Handler, check_origin, default_ticket_ttl, device_ticket_name, load_device, map_err, new_handler,
  session_name, verify_device_ticket,
}
use fileflow.Handler.Api.Users.{
  LoginBody, connected, handle_login, handle_web_socket, login_answer, login_device, login_response,
}
use fileflow.Handler.Api.Devices.{
  added_answer, attest_body, device_to_add, device_to_challenge, handle_admin_devices,
  handle_device_attest, handle_device_challenge, marshal_pub_jwk, ticket_answer, ticket_for,
}
use fileflow.Handler.Sample.{
  enrollment, login_body, phone_id, posts, proxy, server, signed_reply, small_net, through_proxy,
  tokens, wish,
}
use fileflow.Handler.Middleware.{new_rate_limiter}
use fileflow.Handler.Service.{
  Ask, Served, World, asked, attests, enrolls, logs_in, opened, seeks_challenge, serve,
}
use fileflow.Handler.Service.Behind.{IsBacked, IsHonest}
use fileflow.Realtime.Client.{Client, new_client}
use fileflow.Realtime.Hub.{new_hub}

-- `SESSION_TTL_HOURS` is read as one second.
abbrev readers : Readers tokens
readers = record {
  read_rate = λ text. none;
  default_rate = tt;
  read_int = λ text. none;
  read_hours = λ text. some 1_000_000_000;
  read_duration = λ text. none;
}

abbrev env : Env
env key =
    if bytes_beq key (codes "SESSION_KEY")
    then codes "k"
    else if bytes_beq key (codes "APP_SECRET_HASH")
    then server.secret_hash
    else if bytes_beq key (codes "TRUSTED_PROXIES")
    then proxy
    else if bytes_beq key (codes "BOOTSTRAP_TOKEN")
    then codes "boot"
    else if bytes_beq key (codes "SESSION_TTL_HOURS")
    then codes "1"
    else []

abbrev handler : Handler
handler = record server { device_ticket_ttl = default_ticket_ttl; max_ws_msg_bytes = pos 262144 }

abbrev started : Server tokens small_net in_memory readers
started = record {
  handler = handler;
  challenges = new_challenge_store 60_000_000_000;
  hub = new_hub;
  conns = new_conn_limiter 5 1000;
  logins = new_ip_limiter tokens tt 10;
  requests = new_rate_limiter tokens tt 10;
  trusted = proxy ∷ [];
}

abbrev no_rows : Tables
no_rows = record { devices = []; config = [] }

starts : start tokens small_net in_memory readers env no_rows ≡ ok started
unfolding start new_handler new_challenge_store set_trusted_proxies split trim_space trim_left
    has_byte
starts = refl

opens : database_of tokens small_net in_memory readers (file_of no_rows) env ≡ ok no_rows
unfolding new_store migrate load_config get_env
opens = refl

no_device : (id : Bytes) (d : Device) → get_device in_memory id no_rows ≢ ok d
unfolding get_device lookup
no_device id d e = cc

abbrev first_world : World sample in_memory tokens small_net handler
first_world =
    world_of sample sample-PlatformLaws in_memory tokens small_net readers (file_of no_rows) started
      no_rows

-- The tokens that the phone is given.
abbrev given_ticket : Bytes
given_ticket =
    let payload = sample.url_encode (0 ∷ 2 ∷ 0 ∷ 0 ∷ 0 ∷ 900 ∷ phone_id) in
    payload ++ b'.' ∷ sample.url_encode (codes "k" ++ payload)

abbrev login : Request LoginBody
login = record (posts login_body) { cookies = (device_ticket_name, given_ticket) ∷ [] }

abbrev challenged : World sample in_memory tokens small_net handler
challenged =
    (serve sample in_memory tokens small_net handler
      (serve sample in_memory tokens small_net handler first_world (enrolls enrollment 5)).1
      (seeks_challenge wish (some (codes "nonce")) (codes "u1") 10)).1

abbrev attested_world : World sample in_memory tokens small_net handler
attested_world =
    (serve sample in_memory tokens small_net handler challenged (attests signed_reply 65)).1

abbrev journey : List (Ask sample in_memory tokens small_net handler)
journey =
    logs_in (proxy ∷ []) login (codes "u2") 70
    ∷ attests signed_reply 65
    ∷ seeks_challenge wish (some (codes "nonce")) (codes "u1") 10
    ∷ enrolls enrollment 5
    ∷ []

abbrev logged_in_world : World sample in_memory tokens small_net handler
logged_in_world =
    (serve sample in_memory tokens small_net handler attested_world
      (logs_in (proxy ∷ []) login (codes "u2") 70)).1

abbrev travelled :
    Served sample in_memory tokens small_net handler first_world logged_in_world journey
travelled = asked _ (asked _ (asked _ (asked _ opened)))

-- The session that the login is given.
abbrev given_session : Bytes
given_session =
    let payload = sample.url_encode (0 ∷ 1 ∷ 0 ∷ 0 ∷ 0 ∷ 1 ∷ codes "u2") in
    payload ++ b'.' ∷ sample.url_encode (codes "k" ++ payload)

abbrev both : List (Bytes × Bytes)
both = (session_name, given_session) ∷ (device_ticket_name, given_ticket) ∷ []

abbrev visit : Request (Unit {0})
visit = record (posts tt) { cookies = both }

both-cases :
    (name token : Bytes)
    → lookup name both ≡ some token
    → (given_session ≡ token) ⊎ (given_ticket ≡ token)
unfolding lookup
both-cases name token e = elim (Bool-cases (bytes_beq session_name name)) [
  | inl session ↦ inl (cc (rw session at e))
  | inr other ↦ elim (Bool-cases (bytes_beq device_ticket_name name)) [
    | inl its ↦ inr (cc (rw (other, its) at e))
    | inr neither ↦ absurd (cc (rw (other, neither) at e))
  ]
]

travelled-IsHonest :
    IsHonest sample sample-PlatformLaws in_memory tokens small_net handler travelled both
unfolding serve handle_admin_devices handle_device_challenge handle_device_attest device_to_add
    device_to_challenge attest_body ticket_for ticket_answer added_answer add_device get_device
    parse_jwk_bytes parse_jwk_map verify_signature lookup new_challenge_store put create consume
    validate_device_id_format validate_device_id is_post marshal_pub_jwk equal_jwk sign
    device_ticket_cookie handle_login login_response login_device login_answer verify_device_ticket
    verify_with_version verify split map_err load_device verify_secret get_client_ip trim_space
    trim_left ip_allow new_ip_limiter
travelled-IsHonest name token e = elim (both-cases name token e) [
  | inl session ↦ inl (inl session)
  | inr phones ↦ inr (inl (inl phones))
]

abbrev visitor : Client
visitor =
    new_client 1 (codes "u2") (get_client_ip small_net (proxy ∷ []) through_proxy) (pos 262144)

arrives :
    (handle_web_socket sample in_memory tokens small_net handler
      (proxy ∷ [])
      visit
      true
      1
      80
      logged_in_world.devices
      none).0
    ≡ connected visitor
unfolding serve handle_admin_devices device_to_add added_answer add_device get_device
    validate_device_id marshal_pub_jwk put parse_jwk_map lookup handle_web_socket
    verify_device_ticket verify_with_version verify split validate_device_id_format map_err
    get_client_ip trim_space trim_left check_origin
arrives = refl

start-IsBacked_example :
    IsBacked sample sample-PlatformLaws in_memory tokens small_net handler first_world
      logged_in_world journey visitor
start-IsBacked_example =
    start-IsBacked sample sample-PlatformLaws in_memory tokens small_net readers (file_of no_rows)
      in_memory-DatabaseLaws (file_of-DriverLaws no_rows) env no_rows no_rows started refl no_device
      opens starts logged_in_world journey travelled ((omega arith, (omega arith, tt)), tt) visit
      true 1 80 none visitor arrives travelled-IsHonest
