-- ===== src/Auth/Jwk.antt =====
-- internal/auth/jwk.go, validate.go and signature.go: public keys, device ids and signatures.
pub mod Keys
use fileflow.Common.{
  Bool, Bytes, Option, String, [], all, bytes_beq, codes, drop, false, if◌then◌else◌, leb, length,
  nat_beq, none, not, some, take, ℕ, ◌&&◌, ◌*◌, ◌+◌, ◌||◌, ◌∷◌,
}
use fileflow.Common.Result.{Result, err, ok, require, some_or, ◌>>=◌, ◌>>◌}
use fileflow.Realtime.Events.{Fields}
use fileflow.Auth.Platform.{EcPublicJwk, Platform, PublicKey}

-- The one error of the parsers, `ErrInvalidJWK`.
pub data JwkError : Type 0 where
  invalid_jwk : JwkError

-- `new(big.Int).SetBytes(b)`
unfoldable pub big_endian : ℕ → Bytes → ℕ
big_endian acc [] = acc
big_endian acc (b ∷ bs) = big_endian (acc * 256 + b) bs

abbrev pub set_bytes : Bytes → ℕ
set_bytes = big_endian 0

abbrev pub is_id_char : ℕ → Bool
is_id_char c =
    leb b'A' c && leb c b'Z'
    || leb b'a' c && leb c b'z'
    || leb b'0' c && leb c b'9'
    || nat_beq c b'_'
    || nat_beq c b'-'

-- The expression `^[A-Za-z0-9_-]{10,128}$`; without the flag `m`, Go's `$` is the end of the text.
unfoldable pub validate_device_id_format : Bytes → Bool
validate_device_id_format s = leb 10 (length s) && leb (length s) 128 && all is_id_char s

unfoldable pub equal_jwk : Option EcPublicJwk → Option EcPublicJwk → Bool
equal_jwk (some a) (some b) =
    bytes_beq a.kty b.kty && bytes_beq a.crv b.crv && bytes_beq a.x b.x && bytes_beq a.y b.y
equal_jwk _ _ = false

module _ (p : Platform) where
  unfoldable pub key_of_jwk : EcPublicJwk → Result JwkError (PublicKey × EcPublicJwk)
  key_of_jwk jwk = do
    require (bytes_beq jwk.kty (codes "EC") && bytes_beq jwk.crv (codes "P-256")) invalid_jwk
    require (not (bytes_beq jwk.x [] || bytes_beq jwk.y [])) invalid_jwk
    x_bytes ← some_or (p.url_decode jwk.x) invalid_jwk
    y_bytes ← some_or (p.url_decode jwk.y) invalid_jwk
    let x = set_bytes x_bytes
    let y = set_bytes y_bytes
    require (p.is_on_curve x y) invalid_jwk
    ok (record { x = x; y = y }, jwk)

  unfoldable pub parse_jwk_bytes : Bytes → Result JwkError (PublicKey × EcPublicJwk)
  unfolding key_of_jwk
  parse_jwk_bytes b = do jwk ← some_or (p.unmarshal_jwk b) invalid_jwk; key_of_jwk jwk

  -- A nil map is `none`.
  unfoldable pub parse_jwk_map : Option Fields → Result JwkError (PublicKey × EcPublicJwk)
  unfolding parse_jwk_bytes
  parse_jwk_map m = do
    fs ← some_or m invalid_jwk
    b ← some_or (p.marshal_map fs) invalid_jwk
    parse_jwk_bytes b

  unfoldable pub device_id_from_jwk : Option EcPublicJwk → Result JwkError Bytes
  device_id_from_jwk m = do
    jwk ← some_or m invalid_jwk
    b ← some_or (p.marshal_jwk jwk) invalid_jwk
    ok (p.url_encode (p.sha256 b))

  -- The messages of `ValidateDeviceID`, which a handler passes on to its client.
  unfoldable pub validate_device_id : Bytes → Option Fields → Result String (Unit {0})
  unfolding validate_device_id_format parse_jwk_map
  validate_device_id device_id pub_jwk = do
    require (not (bytes_beq device_id [])) "device_id is required"
    require (validate_device_id_format device_id) "invalid device_id format"
    fs ← some_or pub_jwk "public_key is required"
    elim (parse_jwk_map (some fs)) [ ok k ↦ ok tt | err e ↦ err "invalid public key" ]

  unfoldable pub verify_signature : Option PublicKey → (message signature : Bytes) → Bool
  verify_signature none message signature = false
  verify_signature (some key) message signature =
      if nat_beq (length signature) 0
      then false
      else if nat_beq (length signature) 64
      then p.ecdsa_verify key (p.sha256 message) (set_bytes (take 32 signature))
          (set_bytes (drop 32 signature))
      else p.ecdsa_verify_asn1 key (p.sha256 message) signature
