-- ===== src/Handler/Middleware/Visitors.antt =====
-- internal/handler/middleware.go: the limiter of all requests answers as the one of logins does.
use fileflow.Common.{
  Bool-cases, Bytes, List, Option-cases, [], arith, bytes_beq, bytes_beq_iff, inl, inr, lookup,
  none, put, refl, some, ℕ, ◌∷◌, ◌≡◌, bytes_key,
}
use fileflow.Limit.{IpLimiter, RateLimit, bucket_of, ip_allow}
use fileflow.Handler.Middleware.{RateLimiter, VisitorLimiter, get_visitor, rate_allow}

put-put {ℓ} :
    {V : Type ℓ} (k : Bytes) (v w : V) (m : List (Bytes × V)) → put k w (put k v m) ≡ put k w m
unfolding put
put-put k v w [] = ground (arith, bytes_beq_iff k k)
put-put k v w ((i, u) ∷ m) = ground (arith, put-put k v w m)

module _ (rl : RateLimit) where
  abbrev pub buckets : List (Bytes × VisitorLimiter rl) → List (Bytes × rl.Bucket)
  buckets [] = []
  buckets ((ip, v) ∷ rest) = (ip, v.limiter) ∷ buckets rest

  -- The limiter without the times.
  abbrev pub forget : RateLimiter rl → IpLimiter rl
  forget l = record { ips = buckets l.visitors; r = l.rate; b = l.burst }

  buckets-put :
      (ip : Bytes) (v : VisitorLimiter rl) (m : List (Bytes × VisitorLimiter rl))
      → buckets (put ip v m) ≡ put ip v.limiter (buckets m)
  unfolding put
  buckets-put ip v [] = refl
  buckets-put ip v ((i, u) ∷ m) = elim (Bool-cases (bytes_beq i ip)) [
    | inl same ↦ rw same
    | inr other ↦ rw (other, buckets-put ip v m)
  ]

  lookup-buckets :
      (ip : Bytes) (m : List (Bytes × VisitorLimiter rl))
      → lookup ip (buckets m) ≡ elim (lookup ip m) [ none ↦ none | some v ↦ some v.limiter ]
  unfolding lookup
  lookup-buckets ip [] = refl
  lookup-buckets ip ((i, u) ∷ m) = elim (Bool-cases (bytes_beq i ip)) [
    | inl same ↦ rw same
    | inr other ↦ rw (other, lookup-buckets ip m)
  ]

  -- Each request is let through or refused as the limiter of logins would do with the same buckets,
  -- and leaves the same buckets behind.
  pub rate_allow-ip_allow :
      (l : RateLimiter rl) (ip : Bytes) (now : ℕ)
      → let (allowed, l') = rate_allow rl l ip now in
        ip_allow rl (forget l) ip now ≡ (allowed, forget l')
  unfolding rate_allow get_visitor ip_allow bucket_of
  rate_allow-ip_allow l ip now = elim (Option-cases (lookup ip l.visitors)) [
    | inl missing ↦ rw (
      rate_allow, get_visitor, missing, put-put, buckets-put, ip_allow, bucket_of, lookup-buckets,
      missing,
    )
    | inr (v, found) ↦ rw (
      rate_allow, get_visitor, found, put-put, buckets-put, ip_allow, bucket_of, lookup-buckets,
      found,
    )
  ]
