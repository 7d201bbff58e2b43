-- ===== src/Handler/Sample.antt =====
-- A network, buckets, a server and a database for runs of internal/handler.
use fileflow.Common.{
  Bytes, [], bytes_beq, codes, if◌then◌else◌, ltb, none, pos, some, true, ℕ, ◌++◌, ◌-◌, ◌∷◌,
  bytes_key,
}
use fileflow.Limit.{RateLimit}
use fileflow.Store.{Device}
use fileflow.Store.Sample.{Tables}
use fileflow.Auth.Sample.{sample}
use fileflow.Handler.Api.{Handler, device_ticket_name}
use fileflow.Handler.Http.{Request, post}
use fileflow.Handler.Proxy.{Net, Origin}
use fileflow.Realtime.Events.{end}
use fileflow.Handler.Api.Devices.{AttestBody, ChallengeBody, EnrollBody}
use fileflow.Handler.Api.Users.{LoginBody}

-- Addresses are their text, a network is one address, and a host has no port.
abbrev pub small_net : Net
small_net = record {
  Ip = Bytes;
  Network = Bytes;
  parse_ip = λ s. if bytes_beq s [] then none else some s;
  parse_cidr = λ s. none;
  is_v4 = λ ip. true;
  host_network = λ bits ip. ip;
  contains = λ network ip. bytes_beq network ip;
  split_host = λ s. none;
}

-- A bucket is the number of requests that are left.
abbrev pub tokens : RateLimit
tokens = record {
  Rate = Unit;
  Bucket = ℕ;
  new_bucket = λ r b. b;
  allow = λ bucket now. (ltb 0 bucket, bucket - 1);
}

abbrev pub phone_id : Bytes
phone_id = codes "device-0001"

abbrev pub phone : Device
phone = record {
  device_id = phone_id;
  pub_jwk_json = codes "jwk";
  label = codes "phone";
  created_at = 1;
}

abbrev pub tables : Tables
tables = record { devices = (phone_id, phone) ∷ []; config = [] }

abbrev pub server : Handler
server = record {
  token_secret = codes "k";
  secret_hash =
      codes "$argon2id$v=19$m=65536,t=1,p=4$"
      ++ sample.std_encode (codes "salt")
      ++ b'$' ∷ sample.std_encode (codes "pw");
  bootstrap_token = codes "boot";
  secure_cookies = true;
  session_ttl = 1_000_000_000;
  device_ticket_ttl = 9_000_000_000;
  max_ws_msg_bytes = pos 0;
  allowed_origin = [];
}

abbrev pub proxy : Bytes
proxy = codes "10.0.0.1"

-- A ticket of the phone, for the first nine seconds.
abbrev pub payload : Bytes
payload = sample.url_encode (0 ∷ 2 ∷ 0 ∷ 0 ∷ 0 ∷ 9 ∷ phone_id)

abbrev pub ticket : Bytes
ticket = payload ++ b'.' ∷ sample.url_encode (codes "k" ++ payload)

-- Through the proxy, with a header whose first part the client made up.
abbrev pub through_proxy : Origin
through_proxy = record {
  remote_addr = proxy;
  forwarded_for = codes "6.6.6.6, 1.2.3.4,10.0.0.1, ";
  real_ip = [];
}

abbrev pub posts : {A : Type 0} → A → Request A
posts body = record {
  method = post;
  origin = through_proxy;
  origin_header = [];
  bootstrap_header = codes "boot";
  cookies = (device_ticket_name, ticket) ∷ [];
  body = some body;
}

-- The requests by which the phone is enrolled, challenged and attested, and its user logged in.
abbrev pub enrollment : Request EnrollBody
enrollment = posts (record { device_id = phone_id; pub_jwk = some end; label = codes "phone" })

abbrev pub wish : Request ChallengeBody
wish = posts (record { device_id = phone_id; pub_jwk = some end })

abbrev pub signed_reply : Request AttestBody
signed_reply = posts (record {
  challenge_id = codes "u1";
  device_id = phone_id;
  signature = sample.url_encode (codes "nonce");
})

abbrev pub login_body : LoginBody
login_body = record { secret = codes "pw"; device_id = phone_id }
