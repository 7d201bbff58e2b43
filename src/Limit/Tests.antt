-- ===== src/Limit/Tests.antt =====
-- Runs of the limiters of internal/limit/limiter.go on concrete addresses.
use fileflow.Common.{
  Bytes, List, [], codes, delete, false, lookup, ltb, put, refl, true, ℕ, ◌-◌, ◌∷◌, ◌≡◌, bytes_key,
}
use fileflow.Limit.{
  ConnLimiter, RateLimit, bucket_of, decrement, increment, ip_allow, new_ip_limiter,
}
use fileflow.Limit.Buckets.{alone, answers, answers-alone}

abbrev home : Bytes
home = codes "10.0.0.1"

abbrev away : Bytes
away = codes "10.0.0.2"

-- One connection of `home` is open, of at most two for each address and three in all.
abbrev one_open : ConnLimiter
one_open = record { ip_counts = (home, 1) ∷ []; total_count = 1; max_per_ip = 2; max_global = 3 }

increments_home : (increment one_open home).1.ip_counts ≡ (home, 2) ∷ []
unfolding increment lookup put
increments_home = refl

refuses_third : (increment (increment one_open home).1 home).0 ≡ false
unfolding increment lookup put
refuses_third = refl

forgets_home : (decrement one_open home).ip_counts ≡ []
unfolding decrement lookup put delete
forgets_home = refl

-- A bucket that is never refilled.
abbrev tokens : RateLimit
tokens = record { Rate = ℕ; Bucket = ℕ; new_bucket = λ r b. b; allow = λ b now. (ltb 0 b, b - 1) }

abbrev requests : List (Bytes × ℕ)
requests = (home, 1) ∷ (away, 2) ∷ (home, 3) ∷ (home, 4) ∷ []

answers-home : answers tokens (new_ip_limiter tokens 5 2) home requests ≡ true ∷ true ∷ false ∷ []
unfolding answers new_ip_limiter ip_allow bucket_of lookup put
answers-home = refl

answers-alone_example :
    answers tokens (new_ip_limiter tokens 5 2) home requests ≡ alone tokens 2 home requests
answers-alone_example = answers-alone tokens 5 2 home requests
