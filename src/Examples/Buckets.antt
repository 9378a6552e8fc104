-- ===== src/Examples/Buckets.antt =====
-- Buckets of two tokens that are refilled at one token a second.
use integrated_work.RateLimiter.{acquire}
use integrated_work.Text.{text_eq}
use integrated_work.Prelude.{ℕ, ◌-◌, ◌+◌, ◌*◌, ◌≡◌, ◌≤◌, refl, some, List, [], ◌∷◌}
use integrated_work.Text.{txt}
use integrated_work.Dict.{Dict, get}
use integrated_work.RateLimiter.{Bucket, parts, new_bucket, acquire_from, slower}
use integrated_work.RateLimiter.Budget
use integrated_work.RateLimiter.Alone

-- Three requests at once, and one a second later.
abbrev requests : List (ℕ × ℕ)
requests = (0, 1) ∷ (0, 1) ∷ (0, 1) ∷ (1000000, 1) ∷ []

given : (Budget.run 20000 10000 requests (new_bucket 20000 0)).0 ≡ 3
unfolding Budget.run new_bucket acquire_from
given = refl

halved : slower (slower (slower (slower 10000))) ≡ 1000
unfolding slower
halved = refl

run-budget_example :
    parts (Budget.run 20000 10000 requests (new_bucket 20000 0)).0
      + (Budget.run 20000 10000 requests (new_bucket 20000 0)).1.tokens
    ≤ (new_bucket 20000 0).tokens
      + (Budget.last_time (new_bucket 20000 0).last_refill requests
          - (new_bucket 20000 0).last_refill)
        * (10000 * (new_bucket 20000 0).multiplier)
unfolding new_bucket
run-budget_example = Budget.run-budget 20000 10000 requests (new_bucket 20000 0) refl

-- Requests to two keys by turns.
abbrev mixed : List Alone.Request
mixed =
    record { key = txt "a"; now = 0; requested = 1 }
    ∷ record { key = txt "b"; now = 0; requested = 2 }
    ∷ record { key = txt "a"; now = 500000; requested = 2 }
    ∷ record { key = txt "a"; now = 1500000; requested = 2 }
    ∷ []

abbrev pair : Dict Bucket
pair = (txt "a", new_bucket 20000 0) ∷ (txt "b", new_bucket 20000 0) ∷ []

two_and_one : (Alone.run_all (λ k. 20000) (λ k. 10000) (txt "a") mixed pair).0 ≡ 3
unfolding Alone.run_all text_eq acquire
two_and_one = refl

run_all-run_example :
    ((Alone.run_all (λ k. 20000) (λ k. 10000) (txt "a") mixed pair).0
      ≡ (Budget.run 20000 10000 (Alone.requests_of (txt "a") mixed) (new_bucket 20000 0)).0)
    × (get (txt "a") (Alone.run_all (λ k. 20000) (λ k. 10000) (txt "a") mixed pair).1
        ≡ some (Budget.run 20000 10000 (Alone.requests_of (txt "a") mixed) (new_bucket 20000 0)).1)
unfolding get text_eq
run_all-run_example =
    Alone.run_all-run (λ k. 20000) (λ k. 10000) (txt "a") mixed (new_bucket 20000 0) pair refl
