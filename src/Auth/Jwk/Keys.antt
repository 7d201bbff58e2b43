-- ===== src/Auth/Jwk/Keys.antt =====
-- internal/auth/jwk.go and validate.go: what a parsed key is, and what a device id says of a key.
use fileflow.Common.{
  Bytes, Option, [], arith, bytes_beq, bytes_beq_iff, codes, false, none, not, refl, some, true,
  ◌&&◌, ◌||◌, ◌↔◌, ◌∷◌, ◌≡◌, ◌≢◌,
}
use fileflow.Common.Result.{>>=-eq-ok, ok, require, require-eq-ok, some_or, some_or-eq-ok}
use fileflow.Realtime.Events.{Fields}
use fileflow.Auth.Platform.{EcPublicJwk, Platform, PublicKey}
use fileflow.Auth.Jwk.{
  equal_jwk, invalid_jwk, key_of_jwk, parse_jwk_bytes, set_bytes, validate_device_id,
  validate_device_id_format,
}

-- Two keys are equal for the program exactly when both are there and agree in all four fields.
pub equal_jwk_iff :
    (a b : Option EcPublicJwk)
    → (equal_jwk a b ≡ true) ↔ ((k : EcPublicJwk) × (a ≡ some k) × (b ≡ some k))
unfolding equal_jwk
equal_jwk_iff none none = ground arith
equal_jwk_iff none (some b) = ground arith
equal_jwk_iff (some a) none = ground arith
equal_jwk_iff (some a) (some b) = (
  λ e. (
    a,
    refl,
    ground (
      arith,
      bytes_beq_iff a.kty b.kty,
      bytes_beq_iff a.crv b.crv,
      bytes_beq_iff a.x b.x,
      bytes_beq_iff a.y b.y,
    ),
  ),
  λ (k, p, q). ground (
    arith,
    bytes_beq_iff a.kty b.kty,
    bytes_beq_iff a.crv b.crv,
    bytes_beq_iff a.x b.x,
    bytes_beq_iff a.y b.y,
  ),
)

pub format_given : (id : Bytes) → validate_device_id_format id ≡ true → bytes_beq id [] ≡ false
unfolding validate_device_id_format
format_given [] well = cc
format_given (c ∷ id) well = refl

module _ (p : Platform) where
  -- A key that the program works with: of the right kind, with both coordinates given, which are
  -- the decoded numbers, and on the curve.
  pub record IsP256 (key : PublicKey) (jwk : EcPublicJwk) : Type 0 where
    pub kind : jwk.kty ≡ codes "EC"
    pub curve : jwk.crv ≡ codes "P-256"
    pub has_x : jwk.x ≢ []
    pub has_y : jwk.y ≢ []
    pub x_is : (b : Bytes) × (p.url_decode jwk.x ≡ some b) × (key.x ≡ set_bytes b)
    pub y_is : (b : Bytes) × (p.url_decode jwk.y ≡ some b) × (key.y ≡ set_bytes b)
    pub on_curve : p.is_on_curve key.x key.y ≡ true

  key_of_jwk-IsP256 :
      (jwk out : EcPublicJwk) (key : PublicKey)
      → key_of_jwk p jwk ≡ ok (key, out)
      → IsP256 key jwk × (out ≡ jwk)
  unfolding key_of_jwk
  key_of_jwk-IsP256 jwk out key e =
      let (u₁, e₁, r₁) =
        >>=-eq-ok
          (require (bytes_beq jwk.kty (codes "EC") && bytes_beq jwk.crv (codes "P-256"))
            invalid_jwk)
          _ e in
      let (u₂, e₂, r₂) =
        >>=-eq-ok (require (not (bytes_beq jwk.x [] || bytes_beq jwk.y [])) invalid_jwk) _ r₁ in
      let (xb, e₃, r₃) = >>=-eq-ok (some_or (p.url_decode jwk.x) invalid_jwk) _ r₂ in
      let (yb, e₄, r₄) = >>=-eq-ok (some_or (p.url_decode jwk.y) invalid_jwk) _ r₃ in
      let (u₅, e₅, r₅) =
        >>=-eq-ok (require (p.is_on_curve (set_bytes xb) (set_bytes yb)) invalid_jwk) _ r₄ in
      let right = require-eq-ok _ _ e₁ in
      let given = require-eq-ok _ _ e₂ in
      let made : key ≡ record { x = set_bytes xb; y = set_bytes yb } = ground arith in
      (
        record {
          kind = ground (arith, bytes_beq_iff jwk.kty (codes "EC"));
          curve = ground (arith, bytes_beq_iff jwk.crv (codes "P-256"));
          has_x = ground (arith, bytes_beq_iff jwk.x []);
          has_y = ground (arith, bytes_beq_iff jwk.y []);
          x_is = (xb, some_or-eq-ok _ _ e₃, rw made);
          y_is = (yb, some_or-eq-ok _ _ e₄, rw made);
          on_curve = rw made (require-eq-ok _ _ e₅);
        },
        ground arith,
      )

  -- Whatever bytes are parsed, a key that comes out is a key of the curve P-256, given in the JSON.
  pub parse_jwk_bytes-IsP256 :
      (b : Bytes) (key : PublicKey) (jwk : EcPublicJwk)
      → parse_jwk_bytes p b ≡ ok (key, jwk)
      → IsP256 key jwk × (p.unmarshal_jwk b ≡ some jwk)
  unfolding parse_jwk_bytes
  parse_jwk_bytes-IsP256 b key jwk e =
      let (j, e₁, r₁) = >>=-eq-ok (some_or (p.unmarshal_jwk b) invalid_jwk) _ e in
      let (good, same) = key_of_jwk-IsP256 j jwk key r₁ in
      (rw same good, rw same (some_or-eq-ok _ _ e₁))

  -- The device id is not tied to the key: a key that is accepted under one device id is accepted
  -- under every other well-formed one.
  pub validate_device_id_any :
      (device_id other : Bytes) (key : Option Fields)
      → validate_device_id p device_id key ≡ ok tt
      → validate_device_id_format other ≡ true
      → validate_device_id p other key ≡ ok tt
  unfolding validate_device_id validate_device_id_format
  validate_device_id_any device_id other key e well =
      let (u₁, e₁, r₁) =
        >>=-eq-ok (require (not (bytes_beq device_id [])) "device_id is required") _ e in
      let (u₂, e₂, r₂) =
        >>=-eq-ok (require (validate_device_id_format device_id) "invalid device_id format") _ r₁ in
      rw (format_given other well, well) r₂
