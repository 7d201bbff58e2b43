-- ===== src/Handler/Middleware/Order.antt =====
-- cmd/server/main.go, `run`: the order of the middleware.
use fileflow.Common.{
  Bool-cases, Bytes, List, [], codes, if◌then◌else◌, inl, inr, none, not, put, some, ℕ, ◌∷◌, ◌≡◌,
  bytes_key,
}
use fileflow.Limit.{RateLimit}
use fileflow.Handler.Http.{Method, error}
use fileflow.Handler.Middleware.{
  Body, Headers, LogLine, RateLimiter, Serve, chain, cors, cors_headers, is_options, limit_body,
  limit_rate, log_reply, logging, max_bytes, rate_allow, security_headers,
}

-- The headers of every reply.
abbrev pub secure_headers : Headers
secure_headers =
    (codes "X-Content-Type-Options", codes "nosniff")
    ∷ (codes "X-Frame-Options", codes "DENY")
    ∷ (codes "Referrer-Policy", codes "strict-origin-when-cross-origin")
    ∷ []

-- What a request changes: the limiter, its body, the state of the routes, and the log.
abbrev pub Logged {ℓ} : RateLimit → Type ℓ → Type ℓ
Logged rl S = RateLimiter rl × ((Body × S) × List LogLine)

module _ {ℓ} (rl : RateLimit) {S : Type ℓ} where
  unfoldable pub serve_all :
      Bytes → ℕ → ℕ → Bytes → Method → Bytes → Bytes → ℕ → Serve (Logged rl S) → Serve (Logged rl S)
  serve_all ip now elapsed allowed method path origin limit routes = chain routes (
      security_headers
      ∷ logging method path elapsed
      ∷ limit_rate rl ip now
      ∷ cors allowed method origin
      ∷ max_bytes limit
      ∷ [])

  -- Every request uses up one of its address's, a preflight included, and leaves one line in the log.
  -- One too many is refused, with the security headers and the type of its body, and neither it nor a
  -- preflight reaches the routes. A preflight is answered with the headers for its origin; any other
  -- request is served by the routes, which find those headers and the security headers set, and the
  -- limit on its body. So the bodies of the others are not touched.
  pub serve_all_lem :
      (ip : Bytes) (now elapsed : ℕ) (allowed : Bytes) (method : Method) (path origin : Bytes)
      (limit : ℕ) (routes : Serve (Logged rl S)) (l : RateLimiter rl) (body : Body) (s : S)
      (log : List LogLine)
      → let (passes, l') = rate_allow rl l ip now in
        let hs = cors_headers allowed origin secure_headers in
        serve_all ip now elapsed allowed method path origin limit routes [] (l, ((body, s), log))
        ≡ log_reply method path elapsed (
            if not passes
            then (
              record {
                written = some 429;
                headers = put (codes "Content-Type") (codes "application/json") secure_headers;
                answer = some (error "RATE_LIMITED" "Too many requests");
              },
              (l', ((body, s), log)),
            )
            else if is_options method
            then (
              record { written = some 204; headers = hs; answer = none },
              (l', ((body, s), log)),
            )
            else routes hs (l', ((limit_body limit body, s), log)))
  unfolding serve_all chain security_headers logging limit_rate cors max_bytes put
  serve_all_lem ip now elapsed allowed method path origin limit routes l body s log =
      elim (Bool-cases (rate_allow rl l ip now).0) [
        | inr refused ↦ rw (serve_all, refused)
        | inl passes ↦ rw (serve_all, passes)
      ]
