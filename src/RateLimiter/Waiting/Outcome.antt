-- ===== src/RateLimiter/Waiting/Outcome.antt =====
-- RateLimiter.acquire: that it returns, what it answers, and what a refused round costs.
use integrated_work.Prelude.{
  ℕ, zero, suc, ◌-◌, ◌+◌, ◌*◌, ◌≡◌, ◌≤◌, ◌<◌, Bool, true, Option, none, some, List, is_some, arith,
}
use integrated_work.Text.{Text}
use integrated_work.Dict.{Dict}
use integrated_work.RateLimiter.{Bucket}
use integrated_work.RateLimiter.Waiting.{
  RateLimitConfig, Limit, limits, acquire_round, acquire_rounds, acquire_url,
}

-- The answer of a run, none where it has not ended.
abbrev pub answer : Option (Bool × Dict Bucket) → Option Bool
answer none = none
answer (some (won, buckets)) = some won

-- The buckets behind n rounds from a round on.
unfoldable pub left_by :
    (tokens : ℕ)
    → (clock : (round reading : ℕ) → ℕ) → (round n : ℕ) → List Limit
    → Dict Bucket
    → Dict Bucket
left_by tokens clock round zero ls buckets = buckets
left_by tokens clock round (suc n) ls buckets =
    left_by tokens clock (suc round) n ls (acquire_round tokens (clock round) 1 ls buckets).1

module _ (timeout tokens start_time : ℕ) (clock : (round reading : ℕ) → ℕ)
    (sleeps : (r : ℕ) → clock r 0 + 100000 ≤ clock (suc r) 0) where
  is_some-acquire_rounds :
      (fuel round : ℕ) (ls : List Limit) (buckets : Dict Bucket)
      → start_time ≤ clock round 0
      → timeout ≤ (clock round 0 - start_time) + fuel * 100000
      → is_some (acquire_rounds (suc fuel) timeout tokens start_time clock round ls buckets) ≡ true
  unfolding acquire_rounds is_some
  is_some-acquire_rounds zero round ls buckets late enough = ground arith
  is_some-acquire_rounds (suc fuel) round ls buckets late enough =
      let after = (acquire_round tokens (clock round) 1 ls buckets).1 in
      let slept = sleeps round in
      ground (arith, is_some-acquire_rounds fuel (suc round) ls after (omega arith) (omega arith))

  -- Where every sleep takes at least its tenth of a second, acquire returns: a round for each tenth of
  -- a second of the timeout, and one more, are enough.
  pub is_some-acquire_url :
      (fuel : ℕ) (config : RateLimitConfig) (domain scan_id : Text) (buckets : Dict Bucket)
      → start_time ≤ clock 0 0
      → timeout ≤ fuel * 100000
      → is_some
          (acquire_url (suc fuel) timeout tokens config domain scan_id start_time clock buckets)
        ≡ true
  unfolding acquire_url
  is_some-acquire_url fuel config domain scan_id buckets late enough =
      is_some-acquire_rounds fuel 0 (limits config domain scan_id) buckets late (omega arith)

  later : (n round at : ℕ) → n + round ≡ at → clock round 0 ≤ clock at 0
  later zero round at here = let same : round ≡ at = omega arith in rw (same) (omega arith)
  later (suc n) round at here = omega (arith, later n (suc round) at (omega arith), sleeps round)

  answer-acquire_rounds :
      (fuel n round at : ℕ) (ls : List Limit) (buckets : Dict Bucket)
      → n < fuel
      → n + round ≡ at
      → clock at 0 - start_time < timeout
      → (acquire_round tokens (clock at) 1 ls (left_by tokens clock round n ls buckets)).0 ≡ true
      → answer (acquire_rounds fuel timeout tokens start_time clock round ls buckets) ≡ some true
  unfolding acquire_rounds left_by
  answer-acquire_rounds zero n round at ls buckets enough here early won = ground arith
  answer-acquire_rounds (suc fuel) zero round at ls buckets enough here early won =
      let same : round ≡ at = omega arith in
      let won_here : (acquire_round tokens (clock round) 1 ls buckets).0 ≡ true = rw (same) won in
      let early_here : clock round 0 - start_time < timeout = rw (same) early in
      ground (arith, won_here, early_here)
  answer-acquire_rounds (suc fuel) (suc n) round at ls buckets enough here early won =
      let now = acquire_round tokens (clock round) 1 ls buckets in
      let rest =
        answer-acquire_rounds fuel n (suc round) at ls now.1 (omega arith) (omega arith) early
          won in
      let before = later (suc n) round at here in ground (arith, rest, before)

  -- Where a round begins before the timeout, and every bucket gives its tokens to it, as the buckets
  -- are left by the rounds before it, acquire answers true, whatever the rounds before were answered.
  pub answer-acquire_url :
      (fuel n : ℕ) (config : RateLimitConfig) (domain scan_id : Text) (buckets : Dict Bucket)
      → n < fuel
      → clock n 0 - start_time < timeout
      → (acquire_round tokens
          (clock n)
          1
          (limits config domain scan_id)
          (left_by tokens clock 0 n (limits config domain scan_id) buckets)).0
        ≡ true
      → answer (acquire_url fuel timeout tokens config domain scan_id start_time clock buckets)
        ≡ some true
  unfolding acquire_url
  answer-acquire_url fuel n config domain scan_id buckets enough early won =
      answer-acquire_rounds fuel n 0 n (limits config domain scan_id) buckets enough (omega arith)
        early won
