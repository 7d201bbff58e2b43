-- ===== src/Auth/Platform.antt =====
-- What internal/auth calls and does not implement: cryptography, base64 and JSON, as a parameter,
-- with the documented behaviour that the theorems rely on.
use fileflow.Common.{All, Bool, Bytes, Option, Without, codes, length, some, ℕ, ℤ, ◌<◌, ◌≡◌}
use fileflow.Realtime.Events.{Fields}

-- internal/auth/jwk.go, `ECPublicJWK`
pub record EcPublicJwk : Type 0 where
  pub kty : Bytes
  pub crv : Bytes
  pub x : Bytes
  pub y : Bytes

-- `ecdsa.PublicKey`, always on the curve P-256.
pub record PublicKey : Type 0 where
  pub x : ℕ
  pub y : ℕ

-- internal/auth/token.go, `Claims`
pub record Claims : Type 0 where
  pub ver : ℤ
  pub sid : Bytes
  pub iat : ℤ
  pub exp : ℤ

pub record Platform : Type 0 where
  pub sha256 : Bytes → Bytes
  pub hmac_sha256 : (key message : Bytes) → Bytes
  pub ecdsa_verify : PublicKey → (hash : Bytes) → (r s : ℕ) → Bool
  pub ecdsa_verify_asn1 : PublicKey → (hash signature : Bytes) → Bool
  pub is_on_curve : (x y : ℕ) → Bool
  pub argon2id : (secret salt : Bytes) → (time memory threads key_len : ℕ) → Bytes
  -- `base64.RawURLEncoding` and `base64.RawStdEncoding`
  pub url_encode : Bytes → Bytes
  pub url_decode : Bytes → Option Bytes
  pub std_encode : Bytes → Bytes
  pub std_decode : Bytes → Option Bytes
  pub marshal_claims : Claims → Option Bytes
  pub unmarshal_claims : Bytes → Option Claims
  pub marshal_map : Fields → Option Bytes
  pub marshal_jwk : EcPublicJwk → Option Bytes
  pub unmarshal_jwk : Bytes → Option EcPublicJwk
  -- `fmt.Sscanf(s, "m=%d,t=%d,p=%d", …)` into two `uint32` and a `uint8`
  pub scan_params : Bytes → Option (ℕ × ℕ × ℕ)

-- Base64 is undone by decoding and its alphabets hold neither `.` nor `$`; JSON gives back claims
-- whose text is ASCII (other text may be replaced); a key has the length that was asked for; and
-- `Sscanf` reads the parameters that `HashSecret` prints.
pub record PlatformLaws (p : Platform) : Type 0 where
  pub url_decode-url_encode : (b : Bytes) → p.url_decode (p.url_encode b) ≡ some b
  pub url_encode_dot : (b : Bytes) → Without b'.' (p.url_encode b)
  pub std_decode-std_encode : (b : Bytes) → p.std_decode (p.std_encode b) ≡ some b
  pub std_encode_dollar : (b : Bytes) → Without b'$' (p.std_encode b)
  pub claims_json :
      (c : Claims)
      → All (λ b. b < 128) c.sid
      → (d : Bytes) × (p.marshal_claims c ≡ some d) × (p.unmarshal_claims d ≡ some c)
  pub argon2id_length :
      (secret salt : Bytes) (time memory threads n : ℕ)
      → length (p.argon2id secret salt time memory threads n) ≡ n
  pub scan_printed : p.scan_params (codes "m=65536,t=1,p=4") ≡ some (65536, 1, 4)
