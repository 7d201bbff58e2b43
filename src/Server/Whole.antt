-- ===== src/Server/Whole.antt =====
-- cmd/server/main.go with internal/handler/api.go: the requests that a server serves after its start.
mod Tests
use fileflow.Common.{
  Bool, Bytes, Option, [], ap, bytes_beq, codes, not, some, subst, sym, ℕ, ◌&&◌, ◌≡◌, ◌≢◌,
}
use fileflow.Common.Result.{>>=-eq-ok, ok, ok-inj, require}
use fileflow.Limit.{ConnLimiter, RateLimit}
use fileflow.Auth.Platform.{Platform, PlatformLaws}
use fileflow.Auth.Challenge.{new_challenge_store}
use fileflow.Store.{Database, Device, get_device}
use fileflow.Store.Rows.{DatabaseLaws}
use fileflow.Store.Open.{Driver, DriverLaws, data_source, new_store_devices}
use fileflow.Server.{
  Env, Readers, Server, ServerConfig, app_domain_required, get_env, load_config, load_proxies,
  load_secret_hash, resolve_session_key, start,
}
use fileflow.Server.Lifetime.{database_of}
use fileflow.Handler.Proxy.{Net}
use fileflow.Handler.Http.{Request}
use fileflow.Handler.Api.{new_handler}
use fileflow.Handler.Api.Users.{connected, handle_web_socket}
use fileflow.Handler.Service.{Served, World}
use fileflow.Handler.Service.Ledger.{Asks}
use fileflow.Handler.Service.Earned.{IsEmpty}
use fileflow.Handler.Service.Origins.{AsciiIds}
use fileflow.Handler.Service.Behind.{IsBacked, IsHonest, connected-IsBacked}
use fileflow.Realtime.Client.{Client}

module _ (p : Platform) (plaws : PlatformLaws p) (db : Database) (rl : RateLimit) (net : Net)
    (readers : Readers rl) (driver : Driver db) where
  -- What the handlers keep, at the start.
  abbrev pub world_of :
      (server : Server rl net db readers) → db.State → World p db rl net server.handler
  world_of server s = record { devices = s; challenges = server.challenges; logins = server.logins }

  abbrev challenge_ttl : Env → ℕ
  challenge_ttl env = (load_config rl net db readers env).challenge_ttl

  start_challenges :
      (env : Env) (s : db.State) (server : Server rl net db readers)
      → start rl net db readers env s ≡ ok server
      → server.challenges ≡ new_challenge_store (challenge_ttl env)
  unfolding start new_handler load_config
  start_challenges env s server e =
      let cfg : ServerConfig rl net db readers = load_config rl net db readers env in
      let prod : Bool =
        bytes_beq cfg.app_domain [] && bytes_beq (get_env env (codes "ENV") []) (codes "prod") in
      let (u, e₁, r₁) = >>=-eq-ok (require (not prod) app_domain_required) _ e in
      let (hash, e₂, r₂) = >>=-eq-ok (load_secret_hash rl net db readers env s) _ r₁ in
      let (key, e₃, r₃) = >>=-eq-ok (resolve_session_key env cfg.secure_cookies) _ r₂ in
      let (trusted, e₄, r₄) = >>=-eq-ok (load_proxies rl net db readers env) _ r₃ in
      ap (λ (x : Server rl net db readers). x.challenges) (sym (ok-inj r₄))

  -- The database that was opened, at the path of the environment.
  abbrev pub file_at : Env → Option db.State
  file_at env = driver.open_db (data_source (load_config rl net db readers env).sqlite_path)

  start-IsEmpty :
      DriverLaws db driver
      → (env : Env) (file s : db.State) (server : Server rl net db readers)
      → file_at env ≡ some file
      → ((id : Bytes) (d : Device) → get_device db id file ≢ ok d)
      → database_of rl net db readers driver env ≡ ok s
      → start rl net db readers env s ≡ ok server
      → IsEmpty p db rl net server.handler (challenge_ttl env) (world_of server s)
  start-IsEmpty laws env file s server there empty opens starts =
      let (opened_file, e, same_devices) = new_store_devices db driver laws _ s opens in
      let same : opened_file ≡ file = cc (e, there) in
      record {
        no_device = λ id d found.
            empty id d (subst (λ x. get_device db id x ≡ ok d) same ((same_devices id d).0 found));
        no_challenge = start_challenges env s server starts;
      }

  -- A server opens its database, which holds no device, and starts. Whatever requests have come in
  -- then, with ASCII identifiers for the logins, a request whose cookies hold only tokens that
  -- answers of the server have set becomes a WebSocket client only where the following stands behind
  -- it. Its device is enrolled, and an earlier request attested this device: it was enrolled with the
  -- bootstrap token and had signed a challenge of its own. The client bears the identifier that an
  -- earlier login was given, which came from an enrolled device with its ticket and with the shared
  -- secret.
  pub start-IsBacked :
      DatabaseLaws db
      → DriverLaws db driver
      → (env : Env) (file s : db.State) (server : Server rl net db readers)
      → file_at env ≡ some file
      → ((id : Bytes) (d : Device) → get_device db id file ≢ ok d)
      → database_of rl net db readers driver env ≡ ok s
      → start rl net db readers env s ≡ ok server
      → (w : World p db rl net server.handler) (asks : Asks p db rl net server.handler)
        (served : Served p db rl net server.handler (world_of server s) w asks)
      → AsciiIds p db rl net server.handler asks
      → (r : Request (Unit {0})) (handshake : Bool) (pointer now : ℕ) (conns : Option ConnLimiter)
        (client : Client)
      → (handle_web_socket p db rl net server.handler server.trusted r handshake pointer now
          w.devices conns).0
        ≡ connected client
      → IsHonest p plaws db rl net server.handler served r.cookies
      → IsBacked p plaws db rl net server.handler (world_of server s) w asks client
  start-IsBacked laws driver_laws env file s server there empty opens starts w asks served ascii r
        handshake pointer now conns client e honest =
      connected-IsBacked p plaws db rl net server.handler laws (challenge_ttl env)
        (world_of server s) w asks
        (start-IsEmpty driver_laws env file s server there empty opens starts) served ascii
        server.trusted r handshake pointer now conns client e honest
