-- ===== src/Auth/Token/Origin.antt =====
-- internal/auth/token.go: a genuine token that was signed says what was signed.
use fileflow.Common.{All, Bytes, [], ap, split, sym, ℕ, ◌++◌, ◌<◌, ◌∙◌, ◌∷◌, ◌≡◌}
use fileflow.Common.Result.{ok, ok-inj}
use fileflow.Auth.Platform.{Claims, Platform, PlatformLaws}
use fileflow.Auth.Token.{claims_of, sign}
use fileflow.Auth.Token.Laws.{IsGenuine, split-url_encode}

module _ (p : Platform) (laws : PlatformLaws p) (secret : Bytes) where
  -- The claims of a token are those with which it was signed, at whatever time it is used.
  pub IsGenuine-sign :
      (sid : Bytes) (version ttl at_time now : ℕ) (token : Bytes) (claims : Claims)
      → All (λ b. b < 128) sid
      → sign p secret sid version ttl at_time ≡ ok token
      → IsGenuine p secret token now claims
      → claims ≡ claims_of sid version ttl at_time
  unfolding sign
  IsGenuine-sign sid version ttl at_time now token claims ascii signed g =
      let c : Claims = claims_of sid version ttl at_time in
      let (payload, marshalled, read) = laws.claims_json c ascii in
      let mac : Bytes = p.hmac_sha256 secret (p.url_encode payload) in
      let made : Bytes = p.url_encode payload ++ b'.' ∷ p.url_encode mac in
      let same : made ≡ token = ok-inj (rw (sign, marshalled) at signed) in
      let both : g.payload ∷ g.signature ∷ [] ≡ p.url_encode payload ∷ p.url_encode mac ∷ [] =
        sym g.parts ∙ ap (split b'.') (sym same) ∙ split-url_encode p laws secret payload mac in
      cc (both, g.readable, laws.url_decode-url_encode payload, g.said, read)
