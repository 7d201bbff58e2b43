-- ===== src/Server.antt =====
-- cmd/server/main.go: what the server reads from its environment, and how `run` makes the parts.
-- `log.Fatal` is an error. Lifetime.antt takes what the listener and the signals do as arguments.
pub mod Start
pub mod Lifetime
pub mod Whole
mod Tests
use fileflow.Common.{
  Bool, Bytes, List, Option, [], bytes_beq, codes, get_or, if◌then◌else◌, negsuc, not, pos, some,
  split, ℕ, ℤ, ◌&&◌, ◌*◌, ◌||◌, bytes_key,
}
use fileflow.Common.Result.{Result, err, ok, require, ◌>>=◌, ◌>>◌}
use fileflow.Limit.{ConnLimiter, IpLimiter, RateLimit, new_conn_limiter, new_ip_limiter}
use fileflow.Realtime.Hub.{Hub, new_hub}
use fileflow.Auth.Challenge.{ChallengeStore, new_challenge_store}
use fileflow.Store.{Database, get_config}
use fileflow.Handler.Proxy.{Net, set_trusted_proxies}
use fileflow.Handler.Middleware.{RateLimiter, new_rate_limiter}
use fileflow.Handler.Api.{Handler, new_handler}

-- `os.Getenv`: a variable that is not set reads as empty.
abbrev pub Env : Type 0
Env = Bytes → Bytes

unfoldable pub get_env : Env → Bytes → Bytes → Bytes
get_env env key default = if bytes_beq (env key) [] then default else env key

-- `getEnvInt`, `getEnvFloat` and `getEnvDuration`, which only read the text differently: a text that
-- cannot be read counts as not set.
unfoldable pub get_env_as {ℓ} : {A : Type ℓ} → (Bytes → Option A) → Env → Bytes → A → A
get_env_as read env key default =
    if bytes_beq (env key) [] then default else get_or (read (env key)) default

-- `getEnvDurationHours`: a number of hours, or else a duration under the second key.
unfoldable pub get_env_duration_hours :
    (read_hours read_duration : Bytes → Option ℕ) → Env → Bytes → ℕ → Bytes → ℕ
unfolding get_env_as
get_env_duration_hours read_hours read_duration env key default fallback_key =
    let fallback =
      if bytes_beq fallback_key []
      then default
      else get_env_as read_duration env fallback_key default in
    get_env_as read_hours env key fallback

unfoldable pub is_dev_env : Env → Bool
is_dev_env env =
    bytes_beq (env (codes "FF_DEV")) (codes "1")
    || bytes_beq (env (codes "APP_ENV")) (codes "dev")
    || bytes_beq (env (codes "ENV")) (codes "dev")

abbrev pub dev_session_key : Bytes
dev_session_key = codes "dev-session-key"

-- Why the server does not start.
pub data StartError : Type 0 where
  app_domain_required secret_hash_required session_key_required : StartError
  invalid_proxies : Bytes → StartError

unfoldable pub resolve_session_key : Env → Bool → Result StartError Bytes
unfolding is_dev_env
resolve_session_key env secure_cookies =
    let key = env (codes "SESSION_KEY") in
    if bytes_beq key [] || bytes_beq key dev_session_key
    then (if secure_cookies || not (is_dev_env env)
        then err session_key_required
        else ok dev_session_key)
    else ok key

-- What `fmt.Sscanf` and `time.ParseDuration` read: a rate, an integer, hours and a duration.
pub record Readers (rl : RateLimit) : Type 0 where
  pub read_rate : Bytes → Option rl.Rate
  pub default_rate : rl.Rate
  pub read_int : Bytes → Option ℤ
  pub read_hours : Bytes → Option ℕ
  pub read_duration : Bytes → Option ℕ

abbrev pub hour : ℕ
hour = 3_600 * 1_000_000_000

-- A limit below 0 lets nothing pass, as 0 does.
unfoldable pub limit_of : ℤ → ℕ
limit_of (pos n) = n
limit_of (negsuc n) = 0

module _ (rl : RateLimit) (net : Net) (db : Database) (readers : Readers rl) where
  pub record ServerConfig : Type 0 where
    pub listen_addr : Bytes
    pub sqlite_path : Bytes
    pub app_domain : Bytes
    pub rate_limit_rps : rl.Rate
    pub max_body_bytes : ℕ
    pub max_ws_msg_bytes : ℤ
    pub secure_cookies : Bool
    pub session_ttl : ℕ
    pub challenge_ttl : ℕ
    pub max_ws_conn_per_ip : ℕ
    pub max_ws_conn_global : ℕ
    pub bootstrap_token : Bytes

  unfoldable pub load_config : Env → ServerConfig
  unfolding get_env get_env_as get_env_duration_hours limit_of
  load_config env = record {
    listen_addr = get_env env (codes "LISTEN_ADDR") (codes ":8080");
    sqlite_path = get_env env (codes "SQLITE_PATH") (codes "/data/fileflow.db");
    app_domain = get_env env (codes "APP_DOMAIN") [];
    rate_limit_rps = get_env_as readers.read_rate env (codes "RATE_LIMIT_RPS") readers.default_rate;
    max_body_bytes = 256 * 1024;
    max_ws_msg_bytes =
        get_env_as readers.read_int env (codes "MAX_WS_MSG_BYTES") (pos (256 * 1024));
    secure_cookies = bytes_beq (get_env env (codes "SECURE_COOKIES") (codes "true")) (codes "true");
    session_ttl =
        get_env_duration_hours readers.read_hours readers.read_duration env
          (codes "SESSION_TTL_HOURS") (12 * hour) (codes "SESSION_TTL");
    challenge_ttl = 60 * 1_000_000_000;
    max_ws_conn_per_ip =
        limit_of (get_env_as readers.read_int env (codes "MAX_WS_CONN_PER_IP") (pos 5));
    max_ws_conn_global =
        limit_of (get_env_as readers.read_int env (codes "MAX_WS_CONN_GLOBAL") (pos 1000));
    bootstrap_token = get_env env (codes "BOOTSTRAP_TOKEN") [];
  }

  -- The hash of the secret, from the environment or else from the database.
  unfoldable pub load_secret_hash : Env → db.State → Result StartError Bytes
  load_secret_hash env s =
      let given = env (codes "APP_SECRET_HASH") in
      if bytes_beq given []
      then elim (get_config db (codes "secret_hash") s) [
        | err e ↦ err secret_hash_required
        | ok hash ↦ if bytes_beq hash [] then err secret_hash_required else ok hash
      ]
      else ok given

  unfoldable pub load_proxies : Env → Result StartError (List net.Network)
  load_proxies env =
      let proxies = get_env env (codes "TRUSTED_PROXY_CIDRS") (env (codes "TRUSTED_PROXIES")) in
      if bytes_beq proxies []
      then ok []
      else (let (result, trusted) = set_trusted_proxies net [] (split b',' proxies) in
          elim result [ err bad ↦ err (invalid_proxies bad) | ok u ↦ ok trusted ])

  -- The parts with which the server serves requests.
  pub record Server : Type 0 where
    pub handler : Handler
    pub challenges : ChallengeStore
    pub hub : Hub
    pub conns : ConnLimiter
    pub logins : IpLimiter rl
    pub requests : RateLimiter rl
    pub trusted : List net.Network

  -- `main`, and `run` up to the routes.
  unfoldable pub start : Env → db.State → Result StartError Server
  unfolding load_config load_secret_hash load_proxies resolve_session_key
  start env s = do
    let cfg = load_config env
    require
        (not
          (bytes_beq cfg.app_domain [] && bytes_beq (get_env env (codes "ENV") []) (codes "prod")))
        app_domain_required
    hash ← load_secret_hash env s
    key ← resolve_session_key env cfg.secure_cookies
    trusted ← load_proxies env
    let (handler, challenges) = new_handler (record {
      token_secret = key;
      secret_hash = hash;
      bootstrap_token = cfg.bootstrap_token;
      secure_cookies = cfg.secure_cookies;
      session_ttl = cfg.session_ttl;
      device_ticket_ttl = 0;
      challenge_store = some (new_challenge_store cfg.challenge_ttl);
      max_ws_msg_bytes = cfg.max_ws_msg_bytes;
      allowed_origin = cfg.app_domain;
    })
    ok (record {
      handler = handler;
      challenges = challenges;
      hub = new_hub;
      conns = new_conn_limiter cfg.max_ws_conn_per_ip cfg.max_ws_conn_global;
      logins = new_ip_limiter rl cfg.rate_limit_rps 10;
      requests = new_rate_limiter rl cfg.rate_limit_rps 10;
      trusted = trusted;
    })
