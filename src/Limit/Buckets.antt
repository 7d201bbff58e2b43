-- ===== src/Limit/Buckets.antt =====
-- internal/limit/limiter.go, `IPLimiter`: the buckets of two addresses are independent.
use fileflow.Common.{
  Bool, Bool-cases, Bytes, List, [], ap, bytes_beq_iff, if◌then◌else◌, inl, inr, lookup, lookup-put,
  refl, ℕ, ◌==◌, ◌∷◌, ◌≡◌, bytes_key,
}
use fileflow.Limit.{IpLimiter, RateLimit, bucket_of, ip_allow, new_ip_limiter}

module _ (rl : RateLimit) where
  open rl use {Bucket, new_bucket, allow}

  -- The requests of one address alone, run against a bucket of its own.
  unfoldable pub alone : Bucket → Bytes → List (Bytes × ℕ) → List Bool
  alone b ip [] = []
  alone b ip ((j, now) ∷ rest) =
      let (ok, b') = allow b now in
      let hit = ok ∷ alone b' ip rest in let miss = alone b ip rest in if j == ip then hit else miss

  -- The answers that the limiter gives to one address, in a run of requests of all addresses.
  unfoldable pub answers : IpLimiter rl → Bytes → List (Bytes × ℕ) → List Bool
  answers l ip [] = []
  answers l ip ((j, now) ∷ rest) =
      let (ok, l') = ip_allow rl l j now in
      let later = answers l' ip rest in if j == ip then ok ∷ later else later

  pub bucket_of-ip_allow :
      (l : IpLimiter rl) (j ip : Bytes) (now : ℕ)
      → bucket_of rl (ip_allow rl l j now).1 ip
        ≡ (if j == ip then (allow (bucket_of rl l j) now).1 else bucket_of rl l ip)
  unfolding ip_allow bucket_of
  bucket_of-ip_allow l j ip now = elim (Bool-cases (j == ip)) [
    | inl same ↦ rw (bucket_of, lookup-put j ip (allow (bucket_of rl l j) now).1 l.ips, same)
    | inr other ↦ rw (bucket_of, lookup-put j ip (allow (bucket_of rl l j) now).1 l.ips, other)
  ]

  pub ip_allow-answer :
      (l : IpLimiter rl) (j : Bytes) (now : ℕ)
      → (ip_allow rl l j now).0 ≡ (allow (bucket_of rl l j) now).0
  unfolding ip_allow
  ip_allow-answer l j now = refl

  answers-alone_from :
      (l : IpLimiter rl) (ip : Bytes) (calls : List (Bytes × ℕ))
      → answers l ip calls ≡ alone (bucket_of rl l ip) ip calls
  unfolding answers alone
  answers-alone_from l ip [] = refl
  answers-alone_from l ip ((j, now) ∷ rest) =
      rw (answers-alone_from (ip_allow rl l j now).1 ip rest, bucket_of-ip_allow l j ip now)
        (elim (Bool-cases (j == ip)) [
          | inl same ↦
              rw (same, ip_allow-answer l j now)
                (ap
                  (λ i.
                    (allow (bucket_of rl l i) now).0
                    ∷ alone (allow (bucket_of rl l i) now).1 ip rest)
                  ((bytes_beq_iff j ip).0 same))
          | inr other ↦ rw other
        ])

  -- A new limiter answers an address as a token bucket of its own would: the requests of the other
  -- addresses make no difference, whatever the bucket's rule is.
  pub answers-alone :
      (r : rl.Rate) (b : ℕ) (ip : Bytes) (calls : List (Bytes × ℕ))
      → answers (new_ip_limiter rl r b) ip calls ≡ alone (new_bucket r b) ip calls
  unfolding new_ip_limiter bucket_of lookup
  answers-alone r b ip calls = answers-alone_from (new_ip_limiter rl r b) ip calls
