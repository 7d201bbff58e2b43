-- ===== src/Auth/Token/Laws.antt =====
-- internal/auth/token.go: what a token that verifies is, and that a signed token verifies.
use fileflow.Common.{
  All, Bool-cases, Bytes, List, [], ap, arith, bytes_beq, bytes_beq_iff, if◌then◌else◌, inl, inr,
  int_beq, int_beq_iff, int_leb, pos, refl, some, split, split-Without, split-append, sym, true, ℕ,
  ◌++◌, ◌<◌, ◌∙◌, ◌∷◌, ◌≡◌, ◌≢◌,
}
use fileflow.Common.Result.{
  >>=-eq-ok, Result, err, ok, require, require-eq-ok, some_or, some_or-eq-ok,
}
use fileflow.Auth.Platform.{Claims, Platform, PlatformLaws}
use fileflow.Auth.Token.{
  TokenError, claims_of, compute_hmac, decode_payload, invalid_signature, invalid_version, sign,
  token_expired, two_parts, unix, unmarshal_failed, verify, verify_with_version,
  version_device_ticket, version_session,
}
use fileflow.Handler.Sample.{payload}

module _ (p : Platform) (secret : Bytes) where
  -- What `Verify` finds out about a token that it accepts.
  pub record IsGenuine (token : Bytes) (now : ℕ) (claims : Claims) : Type 0 where
    pub payload : Bytes
    pub signature : Bytes
    pub decoded : Bytes
    pub parts : split b'.' token ≡ payload ∷ signature ∷ []
    pub signed : p.url_decode signature ≡ some (p.hmac_sha256 secret payload)
    pub readable : p.url_decode payload ≡ some decoded
    pub said : p.unmarshal_claims decoded ≡ some claims
    pub in_time : int_leb (pos (unix now)) claims.exp ≡ true

  two_parts-eq-ok :
      (ps : List Bytes) {a b : Bytes} → two_parts p secret ps ≡ ok (a, b) → ps ≡ a ∷ b ∷ []
  unfolding two_parts
  two_parts-eq-ok [] e = cc
  two_parts-eq-ok (x ∷ []) e = cc
  two_parts-eq-ok (x ∷ y ∷ []) e = cc
  two_parts-eq-ok (x ∷ y ∷ z ∷ zs) e = cc

  verify-IsGenuine :
      (token : Bytes) (now : ℕ) (claims : Claims)
      → verify p secret token now ≡ ok claims
      → IsGenuine token now claims
  unfolding verify
  verify-IsGenuine token now claims e =
      let ((pl, sg), e₁, r₁) = >>=-eq-ok (two_parts p secret (split b'.' token)) _ e in
      let (actual, e₂, r₂) = >>=-eq-ok (some_or (p.url_decode sg) invalid_signature) _ r₁ in
      let (u₃, e₃, r₃) =
        >>=-eq-ok (require (bytes_beq (p.hmac_sha256 secret pl) actual) invalid_signature) _ r₂ in
      let (dec, e₄, r₄) = >>=-eq-ok (some_or (p.url_decode pl) decode_payload) _ r₃ in
      let (c, e₅, r₅) = >>=-eq-ok (some_or (p.unmarshal_claims dec) unmarshal_failed) _ r₄ in
      let (u₆, e₆, r₆) = >>=-eq-ok (require (int_leb (pos (unix now)) c.exp) token_expired) _ r₅ in
      let same : c ≡ claims = cc in
      let equal : p.hmac_sha256 secret pl ≡ actual = (bytes_beq_iff _ _).0 (require-eq-ok _ _ e₃) in
      record {
        payload = pl;
        signature = sg;
        decoded = dec;
        parts = two_parts-eq-ok (split b'.' token) e₁;
        signed = rw equal (some_or-eq-ok _ _ e₂);
        readable = some_or-eq-ok _ _ e₄;
        said = rw (← same) (some_or-eq-ok _ _ e₅);
        in_time = rw (← same) (require-eq-ok _ _ e₆);
      }

  -- A token that is accepted at a version has the two parts payload and signature, the signature
  -- is the HMAC of the payload under the server's key, the payload is the encoding of the claims,
  -- which have that version and have not expired.
  pub verify_with_version-IsGenuine :
      (token : Bytes) (version now : ℕ) (claims : Claims)
      → verify_with_version p secret token version now ≡ ok claims
      → IsGenuine token now claims × (claims.ver ≡ pos version)
  unfolding verify_with_version
  verify_with_version-IsGenuine token version now claims e =
      let (c, e₁, r₁) = >>=-eq-ok (verify p secret token now) _ e in
      let (u, e₂, r₂) = >>=-eq-ok (require (int_beq c.ver (pos version)) invalid_version) _ r₁ in
      let same : c ≡ claims = cc in
      (
        verify-IsGenuine token now claims (rw (← same) e₁),
        rw (← same) ((int_beq_iff c.ver (pos version)).0 (require-eq-ok _ _ e₂)),
      )

  -- The converse.
  pub verify_with_version-genuine :
      (token : Bytes) (version now : ℕ) (claims : Claims)
      → IsGenuine token now claims
      → claims.ver ≡ pos version
      → verify_with_version p secret token version now ≡ ok claims
  unfolding verify_with_version verify two_parts compute_hmac
  verify_with_version-genuine token version now claims g same = rw (
    verify_with_version,
    verify,
    g.parts,
    g.signed,
    (bytes_beq_iff (p.hmac_sha256 secret g.payload) (p.hmac_sha256 secret g.payload)).1 refl,
    g.readable,
    g.said,
    g.in_time,
    same,
    (int_beq_iff (pos version) (pos version)).1 refl,
  )

  -- No token is accepted both as a session and as a device ticket, at whatever times.
  verify_with_version_exclusive :
      (token : Bytes) (now later : ℕ) (a b : Claims)
      → verify_with_version p secret token version_session now ≡ ok a
      → verify_with_version p secret token version_device_ticket later ≢ ok b
  verify_with_version_exclusive token now later a b e f =
      let (g, v) = verify_with_version-IsGenuine token version_session now a e in
      let (h, w) = verify_with_version-IsGenuine token version_device_ticket later b f in
      let same : a ≡ b = cc (g.parts, h.parts, g.readable, h.readable, g.said, h.said) in
      let clash : pos 1 ≡ pos 2 = sym v ∙ ap (λ (c : Claims). c.ver) same ∙ w in ground arith

-- What becomes of a signed token: the claims at its version until its end, an error at another
-- version until then, and afterwards the error that it has expired.
abbrev pub verdict : Claims → ℕ → ℕ → Result TokenError Claims
verdict c version now =
    if int_leb (pos (unix now)) c.exp
    then (if int_beq c.ver (pos version) then ok c else err invalid_version)
    else err token_expired

module _ (p : Platform) (laws : PlatformLaws p) (secret : Bytes) where
  -- The parts of a token are what was joined.
  pub split-url_encode :
      (payload mac : Bytes)
      → split b'.' (p.url_encode payload ++ b'.' ∷ p.url_encode mac)
        ≡ p.url_encode payload ∷ p.url_encode mac ∷ []
  split-url_encode payload mac =
      split-append b'.' (p.url_encode payload) (p.url_encode mac) (laws.url_encode_dot payload)
      ∙ ap (◌∷◌ (p.url_encode payload))
          (split-Without b'.' (p.url_encode mac) (laws.url_encode_dot mac))

  -- Signing an ASCII subject succeeds. The token is accepted at its version, with the claims that
  -- were signed, up to and including the second in which its lifetime ends; at another version it
  -- is refused as such; and after that second it is refused as expired.
  pub verify_with_version-sign :
      (sid : Bytes) (version ttl at_time : ℕ)
      → All (λ b. b < 128) sid
      → (token : Bytes) × (sign p secret sid version ttl at_time ≡ ok token)
        × ((other now : ℕ)
            → verify_with_version p secret token other now
              ≡ verdict (claims_of sid version ttl at_time) other now)
  unfolding sign verify_with_version verify
  verify_with_version-sign sid version ttl at_time ascii =
      let c : Claims = claims_of sid version ttl at_time in
      let (payload, marshalled, read) = laws.claims_json c ascii in
      let mac : Bytes = p.hmac_sha256 secret (p.url_encode payload) in
      let parts = split-url_encode payload mac in
      (
        p.url_encode payload ++ b'.' ∷ p.url_encode mac,
        rw marshalled,
        λ other now.
            rw
              (
                parts,
                laws.url_decode-url_encode mac,
                (bytes_beq_iff mac mac).1 refl,
                laws.url_decode-url_encode payload,
                read,
              )
              (elim (Bool-cases (int_leb (pos (unix now)) c.exp)) [
                | inl early ↦ rw early (elim (Bool-cases (int_beq c.ver (pos other))) [
                  | inl same ↦ rw same
                  | inr differs ↦ rw differs
                ])
                | inr late ↦ rw late
              ]),
      )
