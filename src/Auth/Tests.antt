-- ===== src/Auth/Tests.antt =====
-- Runs of internal/auth on the sample platform.
use fileflow.Common.{
  Bytes, List, [], arith, codes, lookup, none, pos, put, refl, some, split, true, ℕ, ◌*◌, ◌++◌, ◌↔◌,
  ◌∷◌, ◌≡◌, bytes_key,
}
use fileflow.Common.Result.{err, ok}
use fileflow.Realtime.Events.{end}
use fileflow.Auth.Platform.{Claims, EcPublicJwk}
use fileflow.Auth.Sample.{sample, sample-PlatformLaws, sample_jwk}
use fileflow.Auth.Jwk.{big_endian, equal_jwk, parse_jwk_bytes, validate_device_id}
use fileflow.Auth.Jwk.Keys.{IsP256, equal_jwk_iff, parse_jwk_bytes-IsP256, validate_device_id_any}
use fileflow.Auth.Token.{invalid_version, sign, token_expired, verify, verify_with_version}
use fileflow.Auth.Token.Laws.{
  IsGenuine, verdict, verify_with_version-IsGenuine, verify_with_version-sign,
}
use fileflow.Auth.Challenge.{
  Challenge, ChallengeStore, challenge_not_found, cleanup, consume, create, drop_late,
  new_challenge_store,
}
use fileflow.Auth.Challenge.Once.{Call, call, cleans, consume_once, creates, run}
use fileflow.Auth.Session
use fileflow.Auth.Session.Calls
use fileflow.Auth.Session.{Session, SessionStore}

abbrev device : Bytes
device = codes "device-0001"

abbrev server_key : Bytes
server_key = codes "k"

-- One hour, and a time in seconds.
abbrev hour : ℕ
hour = 3_600 * 1_000_000_000

abbrev second : ℕ → ℕ
second n = n * 1_000_000_000

abbrev ticket_claims : Claims
ticket_claims = record { ver = pos 2; sid = device; iat = pos 10; exp = pos 3610 }

abbrev payload_part : Bytes
payload_part = sample.url_encode (0 ∷ 2 ∷ 0 ∷ 10 ∷ 0 ∷ 3610 ∷ device)

abbrev ticket : Bytes
ticket = payload_part ++ b'.' ∷ sample.url_encode (server_key ++ payload_part)

signs_ticket : sign sample server_key device 2 hour (second 10) ≡ ok ticket
unfolding sign
signs_ticket = refl

accepts_ticket : verify_with_version sample server_key ticket 2 (second 20) ≡ ok ticket_claims
unfolding verify_with_version verify split
accepts_ticket = refl

refuses_old_ticket :
    verify_with_version sample server_key ticket 2 (second 3611) ≡ err token_expired
unfolding verify_with_version verify split
refuses_old_ticket = refl

refuses_as_session :
    verify_with_version sample server_key ticket 1 (second 20) ≡ err invalid_version
unfolding verify_with_version verify split
refuses_as_session = refl

verify_with_version-IsGenuine_example :
    IsGenuine sample server_key ticket (second 20) ticket_claims × (ticket_claims.ver ≡ pos 2)
verify_with_version-IsGenuine_example =
    verify_with_version-IsGenuine sample server_key ticket 2 (second 20) ticket_claims
      accepts_ticket

-- The same ticket under the session version.
abbrev session_part : Bytes
session_part = sample.url_encode (0 ∷ 1 ∷ 0 ∷ 10 ∷ 0 ∷ 3610 ∷ device)

abbrev session : Bytes
session = session_part ++ b'.' ∷ sample.url_encode (server_key ++ session_part)

accepts_session :
    verify_with_version sample server_key session 1 (second 20)
    ≡ ok (record ticket_claims { ver = pos 1 })
unfolding verify_with_version verify split
accepts_session = refl

verify_with_version-sign_example :
    (token : Bytes) × (sign sample server_key device 2 hour (second 10) ≡ ok token)
    × ((other now : ℕ)
        → verify_with_version sample server_key token other now ≡ verdict ticket_claims other now)
verify_with_version-sign_example =
    verify_with_version-sign sample sample-PlatformLaws server_key device 2 hour (second 10)
      (omega arith)

equal_jwk_iff_example :
    (equal_jwk (some sample_jwk) none ≡ true)
    ↔ ((k : EcPublicJwk) × (some sample_jwk ≡ some k) × (none ≡ some k))
equal_jwk_iff_example = equal_jwk_iff (some sample_jwk) none

parse_jwk_bytes-IsP256_example :
    IsP256 sample (record { x = 5140; y = 5397 }) sample_jwk
    × (sample.unmarshal_jwk (codes "jwk") ≡ some sample_jwk)
unfolding big_endian parse_jwk_bytes
parse_jwk_bytes-IsP256_example = parse_jwk_bytes-IsP256 sample (codes "jwk") _ sample_jwk refl

validate_device_id_any_example :
    validate_device_id sample (codes "another-device") (some end) ≡ ok tt
unfolding validate_device_id
validate_device_id_any_example =
    validate_device_id_any sample device (codes "another-device") (some end) refl refl

abbrev store : ChallengeStore
store = record { challenges = []; ttl = 60 }

abbrev made : Challenge
made = record { id = codes "u1"; device_id = device; nonce = codes "n"; expires_at = 70 }

abbrev calls : List Call
calls = creates device (some (codes "n")) (codes "u1") 10 ∷ cleans 60 ∷ []

consume_once_example :
    (consume (run (consume store (codes "u1") 5).1 (cleans 6 ∷ [])) (codes "u1") 7).0
    ≡ err challenge_not_found
consume_once_example = consume_once store (codes "u1") 5 (cleans 6 ∷ []) 7 (tt, tt)

hands_out : (consume (run (new_challenge_store 60) calls) (codes "u1") 65).0 ≡ ok made
unfolding consume run call create cleanup drop_late new_challenge_store lookup put
hands_out = refl

abbrev sessions : SessionStore
sessions = record {
  sessions =
      (codes "s1", record { id = codes "s1"; device_id = device; expires_at = 50 })
      ∷ (codes "s2", record { id = codes "s2"; device_id = device; expires_at = 90 })
      ∷ [];
  ttl = 40;
}

abbrev its_id : Bytes
its_id = sample.url_encode (codes "r")

abbrev before : List Calls.Call
before = Calls.cleans 90 ∷ Calls.removes (codes "s1") ∷ []

get-create_example :
    (Session.get
        (Calls.run sample.url_encode
          (Session.create sample.url_encode sessions device (some (codes "r")) 50).1
          before)
        its_id
        80
      ≡ (Session.create sample.url_encode sessions device (some (codes "r")) 50).0)
    × (Session.get
          (Calls.run sample.url_encode
            (Session.remove
              (Calls.run sample.url_encode
                (Session.create sample.url_encode sessions device (some (codes "r")) 50).1
                before)
              its_id)
            (Calls.creates device none 82 ∷ []))
          its_id
          83
        ≡ err Session.session_not_found)
get-create_example =
    Calls.get-create sample.url_encode sessions device (codes "r") 50 80 before
      (Calls.creates device none 82 ∷ []) 83 (omega arith, ((λ e. cc), tt)) (tt, tt)
