-- ===== src/Handler/Service/Tests.antt =====
-- A run of the requests of internal/handler/api.go: a phone is enrolled, challenged and attested.
use fileflow.Common.{
  List, [], codes, lookup, put, refl, some, split, trim_left, trim_space, ◌∷◌, ◌≡◌, bytes_key,
}
use fileflow.Auth.Sample.{sample}
use fileflow.Store.Sample.{in_memory, in_memory-DatabaseLaws}
use fileflow.Handler.Sample.{
  enrollment, login_body, phone, phone_id, posts, proxy, server, signed_reply, small_net, tables,
  tokens, wish,
}
use fileflow.Handler.Service.{Ask, World, asked, enrolls, opened, seeks_challenge, serve, sweeps}
use fileflow.Handler.Service.Earned.{IsEarned, IsEmpty, device_ok-IsEarned}
use fileflow.Limit.{ip_allow, new_ip_limiter}
use fileflow.Auth.Challenge.{consume, create, new_challenge_store}
use fileflow.Handler.Http.{is_post}
use fileflow.Handler.Api.Devices.{
  added_answer, attest_body, device_to_add, device_to_challenge, handle_admin_devices,
  handle_device_attest, handle_device_challenge, marshal_pub_jwk, ticket_answer, ticket_for,
}
use fileflow.Store.{add_device, get_device}
use fileflow.Auth.Jwk.{
  equal_jwk, parse_jwk_bytes, parse_jwk_map, validate_device_id, validate_device_id_format,
  verify_signature,
}
use fileflow.Auth.Token.{sign, verify, verify_with_version}
use fileflow.Handler.Api.Users.{handle_login, login_answer, login_device, login_response}
use fileflow.Handler.Service.Entitled.{IsEntitled, authed-IsEntitled}
use fileflow.Handler.Service.Kept.{get_device-serve}
use fileflow.Handler.Proxy.{get_client_ip}
use fileflow.Handler.Api.{load_device, map_err, verify_device_ticket}
use fileflow.Common.Result.{ok}
use fileflow.Auth.Secret.{verify_secret}

abbrev first_world : World sample in_memory tokens small_net server
first_world = record {
  devices = record { devices = []; config = [] };
  challenges = new_challenge_store 60;
  logins = new_ip_limiter tokens tt 10;
}

abbrev past : List (Ask sample in_memory tokens small_net server)
past = seeks_challenge wish (some (codes "nonce")) (codes "u1") 10 ∷ enrolls enrollment 5 ∷ []

abbrev later_world : World sample in_memory tokens small_net server
later_world =
    (serve sample in_memory tokens small_net server
      (serve sample in_memory tokens small_net server first_world (enrolls enrollment 5)).1
      (seeks_challenge wish (some (codes "nonce")) (codes "u1") 10)).1

first_world-IsEmpty : IsEmpty sample in_memory tokens small_net server 60 first_world
unfolding get_device lookup
first_world-IsEmpty = record { no_device = λ id d e. cc; no_challenge = refl }

device_ok-IsEarned_example :
    IsEarned sample in_memory tokens small_net server first_world past signed_reply 65
unfolding serve handle_admin_devices handle_device_challenge handle_device_attest device_to_add
    device_to_challenge attest_body ticket_for ticket_answer added_answer add_device get_device
    parse_jwk_bytes parse_jwk_map verify_signature lookup new_challenge_store put create consume
    validate_device_id_format validate_device_id is_post marshal_pub_jwk equal_jwk sign
device_ok-IsEarned_example =
    device_ok-IsEarned sample in_memory tokens small_net server in_memory-DatabaseLaws 60
      first_world later_world past first_world-IsEmpty (asked _ (asked _ opened)) signed_reply 65 _
      refl refl

authed-IsEntitled_example :
    IsEntitled sample in_memory tokens small_net server past (posts login_body) 70
unfolding serve handle_admin_devices handle_device_challenge device_to_add device_to_challenge
    added_answer add_device get_device parse_jwk_bytes parse_jwk_map lookup new_challenge_store put
    create validate_device_id_format validate_device_id is_post marshal_pub_jwk equal_jwk sign
    handle_login login_response login_device login_answer verify_device_ticket verify_with_version
    verify split map_err load_device verify_secret get_client_ip trim_space trim_left ip_allow
    new_ip_limiter
authed-IsEntitled_example =
    authed-IsEntitled sample in_memory tokens small_net server in_memory-DatabaseLaws 60 first_world
      later_world past first_world-IsEmpty (asked _ (asked _ opened)) (proxy ∷ [])
      (posts login_body) (codes "u2") 70 _ refl refl

abbrev enrolled_world : World sample in_memory tokens small_net server
enrolled_world = record first_world { devices = tables }

abbrev takeover : List (Ask sample in_memory tokens small_net server)
takeover = sweeps 90 ∷ enrolls enrollment 80 ∷ []

abbrev after_takeover : World sample in_memory tokens small_net server
after_takeover =
    (serve sample in_memory tokens small_net server
      (serve sample in_memory tokens small_net server enrolled_world (enrolls enrollment 80)).1
      (sweeps 90)).1

get_device-serve_example : get_device in_memory phone_id after_takeover.devices ≡ ok phone
unfolding get_device lookup
get_device-serve_example =
    get_device-serve sample in_memory tokens small_net server in_memory-DatabaseLaws enrolled_world
      after_takeover takeover phone_id phone refl (asked _ (asked _ opened))
