-- ===== src/Limit/Counts.antt =====
-- internal/limit/limiter.go, `ConnLimiter`: what the counters say, and that they keep the limits.
use fileflow.Common.{
  All, Bool, Bool-cases, Bytes, IsDistinct, List, Option-cases, [], arith, bytes_beq_iff, delete,
  delete-All, delete-IsDistinct, delete-put, delete_fresh, if◌then◌else◌, inl, inr, put, put-All,
  put-IsDistinct, leb, lookup, lookup-All, lookup-delete, lookup-put, ltb, nat_beq, refl, true, ℕ,
  ◌&&◌, ◌+◌, ◌-◌, ◌<◌, ◌==◌, ◌↔◌, ◌∷◌, ◌≡◌, ◌≤◌, bytes_key,
}
use fileflow.Limit.{ConnLimiter, count_of, decrement, increment, new_conn_limiter}

-- The sum of the counters.
abbrev pub sum : List (Bytes × ℕ) → ℕ
sum [] = 0
sum ((ip, n) ∷ m) = n + sum m

-- A counter that is stored is at least 1 and at most the limit for one address.
abbrev pub InRange : ℕ → ℕ → Type 0
InRange limit n = (0 < n) × (n ≤ limit)

-- The total is the sum of the counters, of which each address has one at most, and no limit is
-- exceeded.
pub record IsConsistent (l : ConnLimiter) : Type 0 where
  pub distinct : IsDistinct l.ip_counts
  pub in_range : All (λ b. InRange l.max_per_ip b.1) l.ip_counts
  pub summed : sum l.ip_counts ≡ l.total_count
  pub within : l.total_count ≤ l.max_global

pub count_of-put :
    (ip j : Bytes) (n : ℕ) (m : List (Bytes × ℕ))
    → count_of (put ip n m) j ≡ (if ip == j then n else count_of m j)
unfolding count_of
count_of-put ip j n m = ground (arith, lookup-put ip j n m)

pub count_of-delete :
    (ip j : Bytes) (m : List (Bytes × ℕ))
    → count_of (delete ip m) j ≡ (if ip == j then 0 else count_of m j)
unfolding count_of
count_of-delete ip j m = ground (arith, lookup-delete ip j m)

sum-put : (ip : Bytes) (n : ℕ) (m : List (Bytes × ℕ)) → sum (put ip n m) + count_of m ip ≡ sum m + n
unfolding put lookup count_of
sum-put ip n [] = omega arith
sum-put ip n ((i, k) ∷ m) = ground (arith, sum-put ip n m)

sum-delete :
    (ip : Bytes) (m : List (Bytes × ℕ)) → IsDistinct m → sum (delete ip m) + count_of m ip ≡ sum m
unfolding delete lookup count_of
sum-delete ip [] d = omega arith
sum-delete ip ((i, k) ∷ m) (f, d) = elim (Bool-cases (i == ip)) [
  | inl same ↦
      let e : i ≡ ip = (bytes_beq_iff i ip).0 same in
      ground (arith, sum-delete ip m d, delete_fresh i m f)
  | inr other ↦ ground (arith, sum-delete ip m d)
]

abbrev pub one_if : Bool → ℕ
one_if b = if b then 1 else 0

-- A connection is admitted exactly when the total and the address's own count are below their
-- limits; then the two grow by one, and otherwise nothing changes. No other address is touched.
pub increment_lem :
    (l : ConnLimiter) (ip j : Bytes)
    → let r = increment l ip in
      ((r.0 ≡ true) ↔ ((l.total_count < l.max_global) × (count_of l.ip_counts ip < l.max_per_ip)))
      × (count_of r.1.ip_counts j ≡ count_of l.ip_counts j + one_if (r.0 && ip == j))
      × (r.1.total_count ≡ l.total_count + one_if r.0)
unfolding increment
increment_lem l ip j =
    ground (arith, bytes_beq_iff ip j, count_of-put ip j (count_of l.ip_counts ip + 1) l.ip_counts)

-- A counter that is not 0 falls by one, with the total; at 0 nothing changes. No other address is
-- touched.
pub decrement_lem :
    (l : ConnLimiter) (ip j : Bytes)
    → let held = ltb 0 (count_of l.ip_counts ip) in
      (count_of (decrement l ip).ip_counts j ≡ count_of l.ip_counts j - one_if (held && ip == j))
      × ((decrement l ip).total_count ≡ l.total_count - one_if held)
unfolding decrement
decrement_lem l ip j = ground (
  arith,
  bytes_beq_iff ip j,
  bytes_beq_iff ip ip,
  count_of-put ip j (count_of l.ip_counts ip - 1) l.ip_counts,
  count_of-put ip ip (count_of l.ip_counts ip - 1) l.ip_counts,
  count_of-delete ip j (put ip (count_of l.ip_counts ip - 1) l.ip_counts),
)

pub new_conn_limiter-IsConsistent : (p g : ℕ) → IsConsistent (new_conn_limiter p g)
unfolding new_conn_limiter
new_conn_limiter-IsConsistent p g = record {
  distinct = tt;
  in_range = tt;
  summed = refl;
  within = omega arith;
}

pub increment-IsConsistent :
    (l : ConnLimiter) (ip : Bytes) → IsConsistent l → IsConsistent (increment l ip).1
unfolding increment
increment-IsConsistent l ip c = elim (Bool-cases (leb l.max_global l.total_count)) [
  | inl full ↦ rw (full, increment) c
  | inr room ↦ elim (Bool-cases (leb l.max_per_ip (count_of l.ip_counts ip))) [
    | inl busy ↦ rw (room, busy, increment) c
    | inr free ↦
        rw (room, free, increment)
          (record {
            distinct = put-IsDistinct ip _ l.ip_counts c.distinct;
            in_range = put-All (InRange l.max_per_ip) ip _ l.ip_counts (ground arith) c.in_range;
            summed = omega (arith, sum-put ip (count_of l.ip_counts ip + 1) l.ip_counts, c.summed);
            within = ground arith;
          })
  ]
]

pub count_of-le :
    (l : ConnLimiter) (ip : Bytes) → IsConsistent l → count_of l.ip_counts ip ≤ l.max_per_ip
unfolding count_of
count_of-le l ip c = elim (Option-cases (lookup ip l.ip_counts)) [
  | inl missing ↦ ground arith
  | inr (n, found) ↦
      let r : InRange l.max_per_ip n =
        lookup-All (InRange l.max_per_ip) ip l.ip_counts c.in_range found in
      ground arith
]

pub decrement-IsConsistent :
    (l : ConnLimiter) (ip : Bytes) → IsConsistent l → IsConsistent (decrement l ip)
unfolding decrement
decrement-IsConsistent l ip c = elim (Bool-cases (ltb 0 (count_of l.ip_counts ip))) [
  | inr free ↦ rw (free, decrement) c
  | inl held ↦ elim (Bool-cases (nat_beq (count_of fewer ip) 0)) [
    | inl last ↦
        rw (held, last, decrement)
          (record {
            distinct = delete-IsDistinct ip fewer distinct;
            in_range =
                rw (delete-put ip (n - 1) l.ip_counts)
                  (delete-All (InRange l.max_per_ip) ip l.ip_counts c.in_range);
            summed = ground (arith, changed, sum-delete ip fewer distinct, c.summed);
            within = omega (arith, c.within);
          })
    | inr more ↦
        rw (held, more, decrement)
          (record {
            distinct = distinct;
            in_range =
                put-All (InRange l.max_per_ip) ip (n - 1) l.ip_counts
                  (ground (arith, count_of-le l ip c, now, bytes_beq_iff ip ip)) c.in_range;
            summed = ground (arith, changed, c.summed);
            within = omega (arith, c.within);
          })
  ]
]
  where
    n : ℕ
    n = count_of l.ip_counts ip

    fewer : List (Bytes × ℕ)
    fewer = put ip (n - 1) l.ip_counts

    distinct : IsDistinct fewer
    distinct = put-IsDistinct ip (n - 1) l.ip_counts c.distinct

    changed : sum fewer + n ≡ sum l.ip_counts + (n - 1)
    changed = sum-put ip (n - 1) l.ip_counts

    now : count_of fewer ip ≡ (if ip == ip then n - 1 else n)
    now = count_of-put ip ip (n - 1) l.ip_counts

pub data Call : Type 0 where
  increments decrements : Bytes → Call

pub call : ConnLimiter → Call → ConnLimiter
call l (increments ip) = (increment l ip).1
call l (decrements ip) = decrement l ip

pub run : ConnLimiter → List Call → ConnLimiter
run l [] = l
run l (c ∷ cs) = run (call l c) cs

pub run-IsConsistent : (l : ConnLimiter) (cs : List Call) → IsConsistent l → IsConsistent (run l cs)
unfolding run call
run-IsConsistent l [] c = c
run-IsConsistent l (increments ip ∷ cs) c =
    run-IsConsistent (increment l ip).1 cs (increment-IsConsistent l ip c)
run-IsConsistent l (decrements ip ∷ cs) c =
    run-IsConsistent (decrement l ip) cs (decrement-IsConsistent l ip c)

-- After any calls on a new limiter, the total is the sum of the counters of the addresses, each
-- listed once; every stored counter is at least 1 and at most the limit for one address; and the
-- total is at most the global limit.
pub run-new_conn_limiter-IsConsistent :
    (p g : ℕ) (cs : List Call) → IsConsistent (run (new_conn_limiter p g) cs)
run-new_conn_limiter-IsConsistent p g cs =
    run-IsConsistent (new_conn_limiter p g) cs (new_conn_limiter-IsConsistent p g)
