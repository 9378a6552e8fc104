-- ===== src/RateLimiter/Waiting.antt =====
-- RateLimiter of executor/rate_limiter/limiter.py over the local buckets: acquire, which waits for the
-- global, the domain's and the scan's bucket. The backend that runs the Lua script is not modelled, and
-- the address of a domain (urlparse) is an argument. The clock numbers its readings: `clock r i` is
-- reading i of round r, where reading 0 is the one of the loop's condition. Clocks count microseconds.
pub mod Outcome
pub mod Cost
use integrated_work.Prelude.{
  ℕ, zero, suc, ◌-◌, Bool, true, false, Option, none, some, List, [], ◌∷◌, ◌++◌, ltb, if◌then◌else◌,
}
use integrated_work.Text.{Text, txt}
use integrated_work.Dict.{Dict, get}
use integrated_work.RateLimiter.{Bucket, acquire}

-- RateLimitConfig, in ten-thousandths of a request per second
pub record RateLimitConfig : Type 0 where
  pub global_limit : ℕ
  pub domains : Dict ℕ

-- A bucket's key and its rate, which is its capacity too.
pub record Limit : Type 0 where
  pub key : Text
  pub rate : ℕ

-- `if domain_rate:`
unfoldable pub domain_limits : (domain : Text) → Option ℕ → List Limit
domain_limits domain none = []
domain_limits domain (some rate) =
    if ltb 0 rate then record { key = txt "rl:domain:" ++ domain; rate = rate } ∷ [] else []

abbrev pub global_key : Text
global_key = txt "rl:global"

abbrev pub scan_key : (scan_id : Text) → Text
scan_key scan_id = txt "rl:scan:" ++ scan_id

-- keys_and_args, less the tokens that are asked of each
unfoldable pub limits : RateLimitConfig → (domain scan_id : Text) → List Limit
unfolding domain_limits get
limits config domain scan_id =
    record { key = global_key; rate = config.global_limit }
    ∷ (domain_limits domain (get domain config.domains)
        ++ record { key = scan_key scan_id; rate = 1000000 } ∷ [])

-- One round of the loop: the limits in turn, up to one that refuses.
unfoldable pub acquire_round :
    (tokens : ℕ) → (reading : ℕ → ℕ) → (next : ℕ) → List Limit → Dict Bucket → Bool × Dict Bucket
acquire_round tokens reading next [] buckets = (true, buckets)
acquire_round tokens reading next (l ∷ ls) buckets =
    let (done, after) = acquire l.key l.rate l.rate tokens (reading next) buckets in
    let rest = acquire_round tokens reading (suc next) ls after in
    if done then rest else (false, after)

-- `while time.time() - start_time < timeout`, on fuel: none where it runs out
unfoldable pub acquire_rounds :
    (fuel timeout tokens start_time : ℕ)
    → (clock : (round reading : ℕ) → ℕ) → (round : ℕ) → List Limit
    → Dict Bucket
    → Option (Bool × Dict Bucket)
acquire_rounds zero timeout tokens start_time clock round ls buckets = none
acquire_rounds (suc fuel) timeout tokens start_time clock round ls buckets =
    let (all_acquired, after) = acquire_round tokens (clock round) 1 ls buckets in
    let rest = acquire_rounds fuel timeout tokens start_time clock (suc round) ls after in
    if ltb (clock round 0 - start_time) timeout
    then if all_acquired then some (true, after) else rest
    else some (false, buckets)

-- RateLimiter.acquire, of one address
unfoldable pub acquire_url :
    (fuel timeout tokens : ℕ)
    → RateLimitConfig
    → (domain scan_id : Text) → (start_time : ℕ) → (clock : (round reading : ℕ) → ℕ) → Dict Bucket
    → Option (Bool × Dict Bucket)
unfolding acquire_rounds limits
acquire_url fuel timeout tokens config domain scan_id start_time clock buckets =
    acquire_rounds fuel timeout tokens start_time clock 0 (limits config domain scan_id) buckets
