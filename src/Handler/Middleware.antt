-- ===== src/Handler/Middleware.antt =====
-- internal/handler/middleware.go: the limiter of all requests, the wrappers that set headers, and
-- their order. A wrapper is about one request: it takes what serves the request further on. `next`
-- is called with the headers that are set so far. A body is what can be read of it.
-- The limiter of an address is used right after it was found, as one step.

pub mod Order
pub mod Through
pub mod Visitors
use fileflow.Common.{
  Bool, Bytes, List, Option, [], bytes_beq, codes, false, get_or, if◌then◌else◌, lookup, ltb, none,
  not, put, some, true, ℕ, ◌&&◌, ◌*◌, ◌++◌, ◌+◌, ◌||◌, ◌∷◌, bytes_key,
}
use fileflow.Limit.{RateLimit}
use fileflow.Handler.Http.{Answer, Method, error, options}
use mathlib.Core.List.{reverse}

abbrev pub Headers : Type 0
Headers = List (Bytes × Bytes)

-- `written` is the status that `WriteHeader` was called with, and none where it was not: the
-- connection was handed over for a WebSocket. Without an `answer` the body is empty.
pub record Reply : Type 0 where
  pub written : Option ℕ
  pub headers : Headers
  pub answer : Option Answer

abbrev pub Serve {ℓ} : Type ℓ → Type ℓ
Serve S = Headers → S → Reply × S

-- The loop of `Chain`, from the last middleware to the first.
abbrev wrap {ℓ} : {S : Type ℓ} → Serve S → List (Serve S → Serve S) → Serve S
wrap h [] = h
wrap h (m ∷ ms) = wrap (m h) ms

unfoldable pub chain {ℓ} : {S : Type ℓ} → Serve S → List (Serve S → Serve S) → Serve S
chain h middlewares = wrap h (reverse middlewares)

unfoldable pub security_headers {ℓ} : {S : Type ℓ} → Serve S → Serve S
security_headers next hs s =
    next
      (put (codes "Referrer-Policy") (codes "strict-origin-when-cross-origin") (
        put (codes "X-Frame-Options") (codes "DENY")
          (put (codes "X-Content-Type-Options") (codes "nosniff") hs)))
      s

-- A line of the log: the status is the one that the wrapped writer has seen, or else 200, with which
-- it starts.
pub record LogLine : Type 0 where
  pub method : Method
  pub path : Bytes
  pub status : ℕ
  pub elapsed : ℕ

unfoldable pub log_reply {ℓ κ} :
    {T : Type ℓ} {S : Type κ}
    → Method
    → Bytes
    → ℕ
    → Reply × (T × (S × List LogLine))
    → Reply × (T × (S × List LogLine))
log_reply method path elapsed (reply, (t, (s, log))) =
    let line : LogLine = record {
      method = method;
      path = path;
      status = get_or reply.written 200;
      elapsed = elapsed;
    } in
    (reply, (t, (s, log ++ line ∷ [])))

-- `LoggingMiddleware`, for a request that takes the time `elapsed`.
unfoldable pub logging {ℓ κ} :
    {T : Type ℓ} {S : Type κ}
    → Method
    → Bytes
    → ℕ
    → Serve (T × (S × List LogLine))
    → Serve (T × (S × List LogLine))
logging method path elapsed next hs s = log_reply method path elapsed (next hs s)

unfoldable pub allows_origin : Bytes → Bytes → Bool
allows_origin allowed origin =
    not (bytes_beq allowed [])
    && (bytes_beq origin allowed || bytes_beq origin (codes "https://" ++ allowed))

unfoldable pub cors_headers : Bytes → Bytes → Headers → Headers
unfolding allows_origin
cors_headers allowed origin hs =
    if allows_origin allowed origin
    then put (codes "Access-Control-Allow-Headers") (codes "Content-Type, X-Admin-Bootstrap") (
        put (codes "Access-Control-Allow-Methods") (codes "GET, POST, OPTIONS") (
          put (codes "Access-Control-Allow-Credentials") (codes "true")
            (put (codes "Access-Control-Allow-Origin") origin hs)))
    else hs

unfoldable pub is_options : Method → Bool
is_options options = true
is_options _ = false

unfoldable pub cors {ℓ} : {S : Type ℓ} → Bytes → Method → Bytes → Serve S → Serve S
unfolding cors_headers is_options
cors allowed method origin next hs s =
    let hs' = cors_headers allowed origin hs in
    if is_options method
    then (record { written = some 204; headers = hs'; answer = none }, s)
    else next hs' s

-- The body of a request: what was not read yet and, if there is a limit, how many bytes of it may be
-- read before the reader fails.
pub record Body : Type 0 where
  pub unread : Bytes
  pub room : Option ℕ

-- `http.MaxBytesReader`: of two limits the lower one holds.
unfoldable pub limit_body : ℕ → Body → Body
limit_body limit body = elim body.room [
  | none ↦ record body { room = some limit }
  | some room ↦ if ltb limit room then record body { room = some limit } else body
]

-- `MaxBytesMiddleware`
unfoldable pub max_bytes {ℓ κ μ} :
    {T : Type ℓ} {S : Type κ} {U : Type μ}
    → ℕ
    → Serve (T × ((Body × S) × U))
    → Serve (T × ((Body × S) × U))
unfolding limit_body
max_bytes limit next hs (t, ((body, s), u)) = next hs (t, ((limit_body limit body, s), u))

-- 3 minutes
abbrev pub idle_time : ℕ
idle_time = 3 * 60 * 1_000_000_000

module _ (rl : RateLimit) where
  pub record VisitorLimiter : Type 0 where
    pub limiter : rl.Bucket
    pub last_seen : ℕ

  pub record RateLimiter : Type 0 where
    pub visitors : List (Bytes × VisitorLimiter)
    pub rate : rl.Rate
    pub burst : ℕ

  unfoldable pub new_rate_limiter : rl.Rate → ℕ → RateLimiter
  new_rate_limiter rate burst = record { visitors = []; rate = rate; burst = burst }

  unfoldable pub drop_idle : ℕ → List (Bytes × VisitorLimiter) → List (Bytes × VisitorLimiter)
  drop_idle now [] = []
  drop_idle now ((ip, v) ∷ rest) =
      let others = drop_idle now rest in
      if ltb (v.last_seen + idle_time) now then others else (ip, v) ∷ others

  -- What `cleanupLoop` does each minute.
  unfoldable pub cleanup : RateLimiter → ℕ → RateLimiter
  cleanup l now = record l { visitors = drop_idle now l.visitors }

  unfoldable pub get_visitor : RateLimiter → Bytes → ℕ → rl.Bucket × RateLimiter
  get_visitor l ip now = elim (lookup ip l.visitors) [
    | none ↦
        let v : VisitorLimiter = record {
          limiter = rl.new_bucket l.rate l.burst;
          last_seen = now;
        } in
        (v.limiter, record l { visitors = put ip v l.visitors })
    | some v ↦ (v.limiter, record l { visitors = put ip (record v { last_seen = now }) l.visitors })
  ]

  -- `rl.getVisitor(ip).Allow()`, which changes the bucket in place.
  unfoldable pub rate_allow : RateLimiter → Bytes → ℕ → Bool × RateLimiter
  unfolding get_visitor
  rate_allow l ip now =
      let (bucket, l') = get_visitor l ip now in
      let (allowed, bucket') = rl.allow bucket now in
      let v : VisitorLimiter = record { limiter = bucket'; last_seen = now } in
      (allowed, record l' { visitors = put ip v l'.visitors })

  unfoldable pub limit_rate {ℓ} :
      {S : Type ℓ} → Bytes → ℕ → Serve (RateLimiter × S) → Serve (RateLimiter × S)
  unfolding rate_allow
  limit_rate ip now next hs (l, s) =
      let (allowed, l') = rate_allow l ip now in
      if allowed then next hs (l', s) else (
        record {
          written = some 429;
          headers = put (codes "Content-Type") (codes "application/json") hs;
          answer = some (error "RATE_LIMITED" "Too many requests");
        },
        (l', s),
      )
