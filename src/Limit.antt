-- ===== src/Limit.antt =====
-- internal/limit/limiter.go: the limits on requests and on open connections of one address.
-- `rate.Limiter` of golang.org/x/time is a parameter: `Bucket` is its state, and `allow` reads the
-- clock and says whether the event may happen. Go's mutexes make each operation one step.
pub mod Counts
pub mod Buckets
mod Tests
use fileflow.Common.{
  Bool, Bytes, List, [], delete, false, get_or, if◌then◌else◌, leb, lookup, ltb, nat_beq, put, true,
  ℕ, ◌+◌, ◌-◌, bytes_key,
}

-- What the program uses of `rate.Limiter`: `new_bucket rate burst` is `rate.NewLimiter`, and
-- `allow b now` is `b.Allow()` at the time `now`.
pub record RateLimit : Type 1 where
  pub Rate : Type 0
  pub Bucket : Type 0
  pub new_bucket : Rate → ℕ → Bucket
  pub allow : Bucket → ℕ → Bool × Bucket

module _ (rl : RateLimit) where
  open rl use {Rate, Bucket, new_bucket, allow}

  pub record IpLimiter : Type 0 where
    pub ips : List (Bytes × Bucket)
    pub r : Rate
    pub b : ℕ

  unfoldable pub new_ip_limiter : Rate → ℕ → IpLimiter
  new_ip_limiter r b = record { ips = []; r = r; b = b }

  -- The bucket of an address, made at its first request.
  unfoldable pub bucket_of : IpLimiter → Bytes → Bucket
  bucket_of l ip = get_or (lookup ip l.ips) (new_bucket l.r l.b)

  -- `limiter.Allow()` changes the bucket in place, so its new state is stored.
  unfoldable pub ip_allow : IpLimiter → Bytes → ℕ → Bool × IpLimiter
  unfolding bucket_of
  ip_allow l ip now =
      let (ok, bucket) = allow (bucket_of l ip) now in (ok, record l { ips = put ip bucket l.ips })

pub record ConnLimiter : Type 0 where
  pub ip_counts : List (Bytes × ℕ)
  pub total_count : ℕ
  pub max_per_ip : ℕ
  pub max_global : ℕ

unfoldable pub new_conn_limiter : ℕ → ℕ → ConnLimiter
new_conn_limiter max_per_ip max_global = record {
  ip_counts = [];
  total_count = 0;
  max_per_ip = max_per_ip;
  max_global = max_global;
}

-- `l.ipCounts[ip]`: a missing key reads as 0.
unfoldable pub count_of : List (Bytes × ℕ) → Bytes → ℕ
count_of counts ip = get_or (lookup ip counts) 0

unfoldable pub increment : ConnLimiter → Bytes → Bool × ConnLimiter
unfolding count_of
increment l ip =
    if leb l.max_global l.total_count
    then (false, l)
    else if leb l.max_per_ip (count_of l.ip_counts ip)
    then (false, l)
    else (
      true,
      record l {
        ip_counts = put ip (count_of l.ip_counts ip + 1) l.ip_counts;
        total_count = l.total_count + 1;
      },
    )

-- A count that falls to 0 is stored and then deleted.
unfoldable pub decrement : ConnLimiter → Bytes → ConnLimiter
unfolding count_of
decrement l ip =
    let fewer = put ip (count_of l.ip_counts ip - 1) l.ip_counts in
    if ltb 0 (count_of l.ip_counts ip)
    then record l {
      ip_counts = if nat_beq (count_of fewer ip) 0 then delete ip fewer else fewer;
      total_count = l.total_count - 1;
    }
    else l
