-- ===== src/RateLimiter.antt =====
-- _LocalTokenBucket of executor/rate_limiter/limiter.py. Times are in microseconds, multipliers in
-- ten-thousandths, capacities and rates in ten-thousandths of a token (a second), requests in tokens, and
-- the tokens of a bucket in parts of which 10 ** 14 are one token, so that every amount is an integer.
-- The lock makes each method one step.
pub mod Budget
pub mod Alone
pub mod Waiting
use integrated_work.Prelude.{
  ℕ, ◌-◌, ◌+◌, ◌*◌, ◌/◌, Bool, true, false, Option, none, some, List, leb, ltb, if◌then◌else◌,
}
use integrated_work.Text.{Text}
use integrated_work.Dict.{Dict, get, put}

pub record Bucket : Type 0 where
  pub tokens : ℕ
  pub last_refill : ℕ
  pub multiplier : ℕ

-- Tokens, and ten-thousandths of tokens, as parts.
abbrev pub parts : ℕ → ℕ
parts n = n * 100000000000000

abbrev pub share : ℕ → ℕ
share n = n * 10000000000

-- {"tokens": capacity, "last_refill": now, "multiplier": 1.0}
unfoldable pub new_bucket : (capacity now : ℕ) → Bucket
new_bucket capacity now = record { tokens = share capacity; last_refill = now; multiplier = 10000 }

-- effective_rate * time_passed; the subtraction stops at 0, as max(0.0, …) does.
unfoldable pub refill : (refill_rate now : ℕ) → Bucket → ℕ
refill refill_rate now b = (now - b.last_refill) * (refill_rate * b.multiplier)

unfoldable pub smaller : ℕ → ℕ → ℕ
smaller a b = if ltb b a then b else a

-- The bucket up to `now`, and the request.
unfoldable pub refilled : (capacity refill_rate now : ℕ) → Bucket → Bucket
unfolding refill smaller
refilled capacity refill_rate now b = record b {
  tokens = smaller (share capacity) (b.tokens + refill refill_rate now b);
  last_refill = now;
}

unfoldable pub take_tokens : (requested : ℕ) → Bucket → Bool × Bucket
take_tokens requested b =
    if leb (parts requested) b.tokens
    then (true, record b { tokens = b.tokens - parts requested })
    else (false, b)

unfoldable pub acquire_from : (capacity refill_rate requested now : ℕ) → Bucket → Bool × Bucket
unfolding refilled take_tokens
acquire_from capacity refill_rate requested now b =
    take_tokens requested (refilled capacity refill_rate now b)

-- b, or a new bucket in its place
unfoldable pub bucket_or : Bucket → Option Bucket → Bucket
bucket_or fresh none = fresh
bucket_or fresh (some b) = b

unfoldable pub acquire :
    Text → (capacity refill_rate requested now : ℕ) → Dict Bucket → Bool × Dict Bucket
unfolding acquire_from bucket_or get put new_bucket
acquire key capacity refill_rate requested now buckets =
    let b = bucket_or (new_bucket capacity now) (get key buckets) in
    let (done, c) = acquire_from capacity refill_rate requested now b in (done, put key c buckets)

-- max(0.1, multiplier * 0.5): halving 1.0 goes 0.5, 0.25, 0.125 and then stays at 0.1.
unfoldable pub slower : ℕ → ℕ
slower multiplier = if ltb (multiplier / 2) 1000 then 1000 else multiplier / 2

unfoldable pub report_429 : Text → (now : ℕ) → Dict Bucket → ℕ × Dict Bucket
unfolding slower bucket_or get put
report_429 key now buckets =
    let b =
      bucket_or (record { tokens = 0; last_refill = now; multiplier = 10000 }) (get key buckets) in
    (slower b.multiplier, put key (record b { multiplier = slower b.multiplier }) buckets)
