-- ===== src/Handler/Service/Earned.antt =====
-- internal/handler/api.go: a ticket goes back to the bootstrap token.
use fileflow.Common.{Bytes, [], ap, inl, inr, some, true, ℕ, ◌∙◌, ◌∷◌, ◌≡◌, ◌≢◌, ◌≤◌, bytes_key}
use fileflow.Common.Result.{ok}
use fileflow.Limit.{RateLimit}
use fileflow.Auth.Jwk.{parse_jwk_bytes, verify_signature}
use fileflow.Auth.Platform.{EcPublicJwk, Platform, PublicKey}
use fileflow.Auth.Challenge.{Challenge, consume, new_challenge_store}
use fileflow.Auth.Challenge.Once.{call, cleans, run}
use fileflow.Auth.Challenge.Made.{consume-WasMade}
use fileflow.Handler.Proxy.{Net}
use fileflow.Handler.Http.{Request, Response, device_ok}
use fileflow.Handler.Api.{Handler}
use fileflow.Handler.Api.Devices.{AttestBody, handle_device_attest}
use fileflow.Store.{Database, Device, get_device}
use fileflow.Store.Rows.{DatabaseLaws}
use fileflow.Handler.Service.{
  Ask, Served, World, asked, attests, enrolls, logs_in, opened, seeks_challenge, serve, sweeps,
}
use fileflow.Handler.Api.Tickets.{handle_device_attest-IsAttested}
use fileflow.Handler.Service.Ledger.{
  Asks, ChallengesAccounted, DevicesAccounted, WasEnrolled, WasIssued, attests-Accounted,
  call-Accounted, enrolls-Accounted, seeks-Accounted,
}

module _ (p : Platform) (db : Database) (rl : RateLimit) (net : Net) (h : Handler) where
  -- The server as it starts: no device is enrolled, and no challenge is made.
  pub record IsEmpty (ttl : ℕ) (w : World p db rl net h) : Type 0 where
    pub no_device : (id : Bytes) (d : Device) → get_device db id w.devices ≢ ok d
    pub no_challenge : w.challenges ≡ new_challenge_store ttl

  pub record IsAccounted (start : World p db rl net h) (ttl : ℕ) (w : World p db rl net h)
      (asks : Asks p db rl net h) : Type 0 where
    pub devices : DevicesAccounted p db rl net h w.devices asks
    pub challenges : ChallengesAccounted p db rl net h start ttl w.challenges asks

  serve-IsAccounted :
      DatabaseLaws db
      → (start : World p db rl net h) (ttl : ℕ) (w : World p db rl net h)
        (asks : Asks p db rl net h) (a : Ask p db rl net h)
      → Served p db rl net h start w asks
      → IsAccounted start ttl w asks
      → IsAccounted start ttl (serve p db rl net h w a).1 (a ∷ asks)
  unfolding serve call
  serve-IsAccounted laws start ttl w asks (enrolls r now) served k = record {
    devices = enrolls-Accounted p db rl net h laws r now w.devices asks k.devices;
    challenges = k.challenges;
  }
  serve-IsAccounted laws start ttl w asks (seeks_challenge r random uuid now) served k = record {
    devices = k.devices;
    challenges =
        seeks-Accounted p db rl net h start ttl r random uuid now w asks served k.challenges;
  }
  serve-IsAccounted laws start ttl w asks (attests r now) served k = record {
    devices = k.devices;
    challenges =
        attests-Accounted p db rl net h start ttl r now w.devices w.challenges asks k.challenges;
  }
  serve-IsAccounted laws start ttl w asks (logs_in trusted r uuid now) served k = record {
    devices = k.devices;
    challenges = k.challenges;
  }
  serve-IsAccounted laws start ttl w asks (sweeps now) served k = record {
    devices = k.devices;
    challenges =
        call-Accounted p db rl net h start ttl w.challenges (cleans now) asks (sweeps now ∷ asks)
          (λ c old. old) (λ c made. absurd made) k.challenges;
  }

  pub Served-IsAccounted :
      DatabaseLaws db
      → (ttl : ℕ) (start w : World p db rl net h) (asks : Asks p db rl net h) → IsEmpty ttl start
      → Served p db rl net h start w asks
      → IsAccounted start ttl w asks
  unfolding run
  Served-IsAccounted laws ttl start w asks empty opened = record {
    devices = λ id d found. absurd (empty.no_device id d found);
    challenges = ([], empty.no_challenge, λ c made. absurd made);
  }
  Served-IsAccounted laws ttl start w asks empty (asked {w = v} {asks = older} a served) =
      serve-IsAccounted laws start ttl v older a served
        (Served-IsAccounted laws ttl start v older empty served)

  -- How a ticket was earned.
  pub record IsEarned (start : World p db rl net h) (asks : Asks p db rl net h)
      (r : Request AttestBody) (now : ℕ) : Type 0 where
    pub body : AttestBody
    pub read : r.body ≡ some body
    pub device : Device
    pub own_device : device.device_id ≡ body.device_id
    pub enrolled : WasEnrolled p db rl net h asks device
    pub challenge : Challenge
    pub named : challenge.id ≡ body.challenge_id
    pub own_challenge : challenge.device_id ≡ body.device_id
    pub issued : WasIssued p db rl net h start asks challenge
    pub timely : now ≤ challenge.expires_at
    pub key : PublicKey
    pub jwk : EcPublicJwk
    pub parsed : parse_jwk_bytes p device.pub_jwk_json ≡ ok (key, jwk)
    pub signature : Bytes
    pub decoded : p.url_decode body.signature ≡ some signature
    pub signed : verify_signature p (some key) challenge.nonce signature ≡ true

  -- On a server that started with no device and no challenge, whatever requests have come in, a
  -- request to attest that is answered with a ticket is earned: among these requests is one that
  -- enrolled the device with the bootstrap token, and one by which the device got the challenge,
  -- having named the key with which it was enrolled in the state of that moment; the challenge is in
  -- time, and its nonce is signed with the device's enrolled key.
  pub device_ok-IsEarned :
      DatabaseLaws db
      → (ttl : ℕ) (start w : World p db rl net h) (asks : Asks p db rl net h) → IsEmpty ttl start
      → Served p db rl net h start w asks
      → (r : Request AttestBody) (now : ℕ) (response : Response)
      → (serve p db rl net h w (attests r now)).0 ≡ some response
      → response.answer ≡ device_ok
      → IsEarned start asks r now
  unfolding serve
  device_ok-IsEarned laws ttl start w asks empty served r now response e good =
      let k = Served-IsAccounted laws ttl start w asks empty served in
      let same : (handle_device_attest p db h r now w.devices w.challenges).0 ≡ response = cc in
      let fine : (handle_device_attest p db h r now w.devices w.challenges).0.answer ≡ device_ok =
        ap (λ (x : Response). x.answer) same ∙ good in
      elim (handle_device_attest-IsAttested p db h r now w.devices w.challenges) [
        | inl ((code, message, refused, _), _, _) ↦ cc
        | inr (body, readable, _, inl ((code, message, refused, _), _)) ↦ cc
        | inr (body, readable, _, inr (ticket, attested, _, _, _)) ↦
            let (calls, store, issued) = k.challenges in
            let (own, was) = k.devices body.device_id attested.device attested.enrolled in
            let out : (consume (run (new_challenge_store ttl) calls) body.challenge_id now).0
                ≡ ok attested.c =
              (rw store at attested.handed_out) in
            let (named, made, timely) =
              consume-WasMade ttl calls body.challenge_id now attested.c out in
            record {
              body = body;
              read = readable.read;
              device = attested.device;
              own_device = own;
              enrolled = was;
              challenge = attested.c;
              named = named;
              own_challenge = attested.own;
              issued = issued attested.c made;
              timely = timely;
              key = attested.key;
              jwk = attested.jwk;
              parsed = attested.parsed;
              signature = attested.signature;
              decoded = attested.decoded;
              signed = attested.signed;
            }
      ]
