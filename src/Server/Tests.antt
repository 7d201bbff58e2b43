-- ===== src/Server/Tests.antt =====
-- A start of the server in a sample environment.
use fileflow.Common.{
  [], bytes_beq, codes, has_byte, if◌then◌else◌, none, pos, refl, split, trim_left, trim_space,
  true, ◌∷◌, ◌≡◌, bytes_key,
}
use fileflow.Common.Result.{ok}
use fileflow.Limit.{new_conn_limiter, new_ip_limiter}
use fileflow.Realtime.Hub.{new_hub}
use fileflow.Auth.Challenge.{new_challenge_store}
use fileflow.Store.Sample.{file_of, in_memory}
use fileflow.Handler.Sample.{small_net, tables, tokens}
use fileflow.Handler.Proxy.{set_trusted_proxies}
use fileflow.Handler.Middleware.{new_rate_limiter}
use fileflow.Handler.Api.{default_ticket_ttl, new_handler}
use fileflow.Server.{
  Env, Readers, Server, get_env, get_env_as, get_env_duration_hours, is_dev_env, limit_of,
  load_config, start,
}
use fileflow.Server.Start.{IsSafe, start-IsSafe}
use fileflow.Store.Open.{migrate, new_store}
use fileflow.Server.Lifetime.{EndsWell, exit_status, exit_status_zero, run, signalled}

abbrev readers : Readers tokens
readers = record {
  read_rate = λ text. none;
  default_rate = tt;
  read_int = λ text. none;
  read_hours = λ text. none;
  read_duration = λ text. none;
}

abbrev env : Env
env key =
    if bytes_beq key (codes "SESSION_KEY")
    then codes "a key"
    else if bytes_beq key (codes "APP_SECRET_HASH")
    then codes "a hash"
    else if bytes_beq key (codes "TRUSTED_PROXIES")
    then codes "10.0.0.1"
    else []

-- The server that starts there.
abbrev started : Server tokens small_net in_memory readers
started = record {
  handler = record {
    token_secret = codes "a key";
    secret_hash = codes "a hash";
    bootstrap_token = [];
    secure_cookies = true;
    session_ttl = 43_200_000_000_000;
    device_ticket_ttl = default_ticket_ttl;
    max_ws_msg_bytes = pos 262144;
    allowed_origin = [];
  };
  challenges = new_challenge_store 60_000_000_000;
  hub = new_hub;
  conns = new_conn_limiter 5 1000;
  logins = new_ip_limiter tokens tt 10;
  requests = new_rate_limiter tokens tt 10;
  trusted = codes "10.0.0.1" ∷ [];
}

starts : start tokens small_net in_memory readers env tables ≡ ok started
unfolding start new_handler new_challenge_store set_trusted_proxies split trim_space trim_left
    has_byte
starts = refl

start-IsSafe_example : IsSafe tokens small_net in_memory readers env started
start-IsSafe_example = start-IsSafe tokens small_net in_memory readers env tables started starts

exit_status_zero_example :
    EndsWell tokens small_net in_memory readers (file_of tables) env signalled none
unfolding exit_status run new_store migrate get_env load_config get_env_as is_dev_env
    get_env_duration_hours limit_of start new_handler new_challenge_store set_trusted_proxies split
    trim_space trim_left has_byte
exit_status_zero_example =
    exit_status_zero tokens small_net in_memory readers (file_of tables) env signalled none refl
