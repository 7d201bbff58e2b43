-- ===== src/Auth/Token.antt =====
-- internal/auth/token.go: signed tokens. Times are nanoseconds since the epoch, and durations are
-- not negative. The signature is an HMAC over the encoded payload.
pub mod Laws
pub mod Origin
use fileflow.Common.{
  Bytes, List, [], bytes_beq, int_beq, int_leb, pos, split, ℕ, ◌++◌, ◌+◌, ◌/◌, ◌∷◌,
}
use fileflow.Common.Result.{Result, err, ok, require, some_or, ◌>>=◌, ◌>>◌}
use fileflow.Auth.Platform.{Claims, Platform}

pub data TokenError : Type 0 where
  token_expired invalid_signature invalid_format invalid_version : TokenError
  decode_payload unmarshal_failed marshal_failed : TokenError

abbrev pub version_session : ℕ
version_session = 1

abbrev pub version_device_ticket : ℕ
version_device_ticket = 2

-- `t.Unix()`
abbrev pub unix : ℕ → ℕ
unix t = t / 1_000_000_000

abbrev pub claims_of : Bytes → ℕ → ℕ → ℕ → Claims
claims_of sid version ttl now = record {
  ver = pos version;
  sid = sid;
  iat = pos (unix now);
  exp = pos (unix (now + ttl));
}

module _ (p : Platform) (secret : Bytes) where
  unfoldable pub compute_hmac : Bytes → Bytes
  compute_hmac message = p.hmac_sha256 secret message

  unfoldable pub sign : Bytes → ℕ → ℕ → ℕ → Result TokenError Bytes
  unfolding compute_hmac
  sign sid version ttl now = do
    payload ← some_or (p.marshal_claims (claims_of sid version ttl now)) marshal_failed
    let encoded = p.url_encode payload
    ok (encoded ++ b'.' ∷ p.url_encode (compute_hmac encoded))

  -- The two parts of a token.
  unfoldable pub two_parts : List Bytes → Result TokenError (Bytes × Bytes)
  two_parts (payload ∷ signature ∷ []) = ok (payload, signature)
  two_parts _ = err invalid_format

  unfoldable pub verify : Bytes → ℕ → Result TokenError Claims
  unfolding compute_hmac two_parts
  verify token now = do
    (payload, signature) ← two_parts (split b'.' token)
    actual ← some_or (p.url_decode signature) invalid_signature
    require (bytes_beq (compute_hmac payload) actual) invalid_signature
    decoded ← some_or (p.url_decode payload) decode_payload
    claims ← some_or (p.unmarshal_claims decoded) unmarshal_failed
    require (int_leb (pos (unix now)) claims.exp) token_expired
    ok claims

  unfoldable pub verify_with_version : Bytes → ℕ → ℕ → Result TokenError Claims
  verify_with_version token version now = do
    claims ← verify token now
    require (int_beq claims.ver (pos version)) invalid_version
    ok claims
