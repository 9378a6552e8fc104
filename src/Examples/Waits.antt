-- ===== src/Examples/Waits.antt =====
-- The waiting loop of the rate limiter at a rate of five requests a second.
use integrated_work.Text.{text_eq}
use integrated_work.RateLimiter.{acquire}
use integrated_work.Prelude.{ℕ, ◌-◌, ◌*◌, ◌≡◌, refl, is_some, true, false, some, [], ◌∷◌, arith}
use integrated_work.Text.{txt}
use integrated_work.Dict.{Dict, get}
use integrated_work.RateLimiter.{Bucket, parts, refilled}
use integrated_work.RateLimiter.Waiting.{
  RateLimitConfig, global_key, scan_key, limits, acquire_round, acquire_url,
}
use integrated_work.RateLimiter.Waiting.Outcome
use integrated_work.RateLimiter.Waiting.Cost

abbrev config : RateLimitConfig
config = record { global_limit = 50000; domains = (txt "example.org", 5000) ∷ [] }

-- Every reading of a round at once, and a tenth of a second between two rounds.
abbrev clock : (round reading : ℕ) → ℕ
clock round reading = round * 100000

abbrev empty : Bucket
empty = record { tokens = 0; last_refill = 0; multiplier = 10000 }

abbrev full : Bucket
full = record { tokens = parts 5; last_refill = 0; multiplier = 10000 }

abbrev drained : Dict Bucket
drained = (global_key, empty) ∷ []

-- A scan that has used its hundred requests up.
abbrev scan_drained : Dict Bucket
scan_drained = (global_key, full) ∷ (scan_key (txt "7"), empty) ∷ []

is_some-acquire_url_example :
    is_some (acquire_url 301 30000000 1 config (txt "localhost") (txt "7") 0 clock drained) ≡ true
is_some-acquire_url_example =
    Outcome.is_some-acquire_url 30000000 1 0 clock (λ r. omega arith) 300 config (txt "localhost")
      (txt "7") drained (omega arith) (omega arith)

answer-acquire_url_example :
    Outcome.answer (acquire_url 301 30000000 1 config (txt "localhost") (txt "7") 0 clock drained)
    ≡ some true
unfolding acquire_round limits acquire Outcome.left_by text_eq
answer-acquire_url_example =
    Outcome.answer-acquire_url 30000000 1 0 clock (λ r. omega arith) 301 2 config (txt "localhost")
      (txt "7") drained (omega arith) (omega arith) refl

get-paid_example :
    get global_key
      (acquire_round 1 (clock 0) 1 (limits config (txt "localhost") (txt "7")) scan_drained).1
    ≡ some (let c = refilled 50000 50000 0 full in record c { tokens = c.tokens - parts 1 })
unfolding get text_eq refilled
get-paid_example =
    Cost.get-paid 1 (clock 0) 1 config (txt "localhost") (txt "7") full scan_drained refl
      (omega arith)

refused :
    (acquire_round 1 (clock 0) 1 (limits config (txt "localhost") (txt "7")) scan_drained).0 ≡ false
unfolding acquire_round limits acquire text_eq
refused = refl
