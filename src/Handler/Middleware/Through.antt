-- ===== src/Handler/Middleware/Through.antt =====
-- cmd/server/main.go, `run`: which requests pass the whole chain of middleware.
use fileflow.Common.{Bool, Bytes, List, [], if◌then◌else◌, not, ℕ, ◌&&◌, ◌++◌, ◌==◌, ◌∷◌, bytes_key}
use fileflow.Limit.{RateLimit}
use fileflow.Handler.Http.{Method}
use fileflow.Handler.Middleware.{Body, Headers, RateLimiter, Reply, Serve, cors_headers, is_options}
use fileflow.Handler.Middleware.Order.{Logged, secure_headers, serve_all}

-- A request, as far as the middleware reads it, with its time and how long it takes.
pub record Visit : Type 0 where
  pub ip : Bytes
  pub now : ℕ
  pub elapsed : ℕ
  pub method : Method
  pub path : Bytes
  pub origin : Bytes
  pub body : Body

module _ (rl : RateLimit) where
  -- Routes that answer in any way, change the state that they keep, and note the request's headers.
  abbrev noting {ℓ} :
      {S : Type ℓ}
      → (Headers → Body × S → Reply × (Body × S))
      → Serve (Logged rl (S × List Headers))
  noting answer hs (l, ((body, (s, seen)), log)) =
      let (reply, (body', s')) = answer hs (body, s) in
      (reply, (l, ((body', (s', seen ++ hs ∷ [])), log)))

  -- What the middleware makes of each of the requests of one address, in a run of requests of all
  -- addresses: whether the routes saw it, and with which headers set.
  unfoldable pub seen_by_routes {ℓ} :
      {S : Type ℓ}
      → (Headers → Body × S → Reply × (Body × S))
      → Bytes
      → ℕ
      → RateLimiter rl
      → S
      → Bytes
      → List Visit
      → List (List Headers)
  seen_by_routes answer allowed limit l s ip [] = []
  seen_by_routes answer allowed limit l s ip (v ∷ rest) =
      let (reply, (l', ((body, (s', seen)), log))) =
        serve_all rl v.ip v.now v.elapsed allowed v.method v.path v.origin limit (noting answer) []
          (l, ((v.body, (s, [])), [])) in
      let later = seen_by_routes answer allowed limit l' s' ip rest in
      if v.ip == ip then seen ∷ later else later

  -- The same of an address that has the server for itself, with its own bucket and no middleware: a
  -- request that the bucket lets pass is seen once, unless it is a preflight.
  abbrev pub once : Bytes → Bool → Visit → List Headers
  once allowed passes v =
      if passes && not (is_options v.method)
      then cors_headers allowed v.origin secure_headers ∷ []
      else []

  unfoldable pub seen_alone : Bytes → rl.Bucket → Bytes → List Visit → List (List Headers)
  seen_alone allowed b ip [] = []
  seen_alone allowed b ip (v ∷ rest) =
      let (passes, b') = rl.allow b v.now in
      let hit = once allowed passes v ∷ seen_alone allowed b' ip rest in
      let miss = seen_alone allowed b ip rest in if v.ip == ip then hit else miss
