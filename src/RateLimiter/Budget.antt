-- ===== src/RateLimiter/Budget.antt =====
-- How many tokens a bucket gives out.
use native.Mathlib.Nat.{add-mul}
use integrated_work.Prelude.{
  ℕ, ◌-◌, ◌+◌, ◌*◌, ◌≡◌, ◌≤◌, refl, ap, and_cases, sym, ◌∙◌, Bool, true, false, ◌&&◌, List, [], ◌∷◌,
  leb, leb→le, if◌then◌else◌, arith,
}
use integrated_work.RateLimiter.{Bucket, parts, refill, refilled, take_tokens, acquire_from}

-- The requests of one bucket, each with its time: the tokens given out, and the bucket behind them.
unfoldable pub run : (capacity refill_rate : ℕ) → List (ℕ × ℕ) → Bucket → ℕ × Bucket
run capacity refill_rate [] b = (0, b)
run capacity refill_rate ((now, requested) ∷ rest) b =
    let (done, c) = acquire_from capacity refill_rate requested now b in
    let (given, e) = run capacity refill_rate rest c in
    (if done then requested + given else given, e)

-- The times do not go back.
abbrev pub ordered_from : ℕ → List (ℕ × ℕ) → Bool
ordered_from t [] = true
ordered_from t ((now, requested) ∷ rest) = leb t now && ordered_from now rest

abbrev pub last_time : ℕ → List (ℕ × ℕ) → ℕ
last_time t [] = t
last_time t ((now, requested) ∷ rest) = last_time now rest

last_time-le : (t : ℕ) (rs : List (ℕ × ℕ)) → ordered_from t rs ≡ true → t ≤ last_time t rs
last_time-le t [] h = omega arith
last_time-le t ((now, requested) ∷ rest) h = ground (arith, last_time-le now rest)

-- Two spans of time, one behind the other, refill what the whole does.
spans : (s t u r : ℕ) → s ≤ t → t ≤ u → (t - s) * r + (u - t) * r ≡ (u - s) * r
spans s t u r h g = sym (add-mul (t - s) (u - t) r) ∙ ap (λ n. n * r) (omega arith)

taken :
    (requested : ℕ) (b : Bucket)
    → (if (take_tokens requested b).0 then parts requested else 0)
        + (take_tokens requested b).1.tokens
      ≡ b.tokens
unfolding take_tokens
taken requested b = ground arith

taken-times :
    (requested : ℕ) (b : Bucket)
    → ((take_tokens requested b).1.last_refill ≡ b.last_refill)
      × ((take_tokens requested b).1.multiplier ≡ b.multiplier)
unfolding take_tokens
taken-times requested b = ground arith

module _ (capacity refill_rate : ℕ) where
  refilled-le :
      (now : ℕ) (b : Bucket)
      → (refilled capacity refill_rate now b).tokens ≤ b.tokens + refill refill_rate now b
  unfolding refilled
  refilled-le now b = ground arith

  acquired-le :
      (requested now : ℕ) (b : Bucket)
      → (if (acquire_from capacity refill_rate requested now b).0 then parts requested else 0)
          + (acquire_from capacity refill_rate requested now b).1.tokens
        ≤ b.tokens + (now - b.last_refill) * (refill_rate * b.multiplier)
  unfolding acquire_from refill
  acquired-le requested now b =
      omega (arith, taken requested (refilled capacity refill_rate now b), refilled-le now b)

  acquired-times :
      (requested now : ℕ) (b : Bucket)
      → ((acquire_from capacity refill_rate requested now b).1.last_refill ≡ now)
        × ((acquire_from capacity refill_rate requested now b).1.multiplier ≡ b.multiplier)
  unfolding acquire_from refilled
  acquired-times requested now b = taken-times requested (refilled capacity refill_rate now b)

  step-given :
      (done : Bool) (requested given : ℕ)
      → parts (if done then requested + given else given)
        ≡ (if done then parts requested else 0) + parts given
  step-given true requested given = omega arith
  step-given false requested given = omega arith

  run-budget_step :
      (requests : List (ℕ × ℕ)) (b : Bucket) (t r : ℕ)
      → b.last_refill ≡ t
      → refill_rate * b.multiplier ≡ r
      → ordered_from t requests ≡ true
      → parts (run capacity refill_rate requests b).0
          + (run capacity refill_rate requests b).1.tokens
        ≤ b.tokens + (last_time t requests - t) * r
  unfolding run
  run-budget_step [] b t r e f h = omega arith
  run-budget_step ((now, requested) ∷ rest) b t r e f h =
      let (first, later) = and_cases (leb t now) (ordered_from now rest) h in
      let (done, c) = acquire_from capacity refill_rate requested now b in
      let (at, same) = acquired-times requested now b in
      let given = (run capacity refill_rate rest c).0 in
      let here : (if done then parts requested else 0) + c.tokens ≤ b.tokens + (now - t) * r =
        rw (← e) (rw (← f) (acquired-le requested now b)) in
      omega (
        arith,
        here,
        run-budget_step rest c now r at (ap (λ n. refill_rate * n) same ∙ f) later,
        step-given done requested given,
        spans t now (last_time now rest) r (leb→le t now first) (last_time-le now rest later),
      )

  -- Whatever is asked of a bucket, at times that do not go back, the tokens given out and those left
  -- are at most those that it held and what its rate adds from its last refill to the last request.
  pub run-budget :
      (requests : List (ℕ × ℕ)) (b : Bucket)
      → ordered_from b.last_refill requests ≡ true
      → parts (run capacity refill_rate requests b).0
          + (run capacity refill_rate requests b).1.tokens
        ≤ b.tokens
          + (last_time b.last_refill requests - b.last_refill) * (refill_rate * b.multiplier)
  run-budget requests b h =
      run-budget_step requests b b.last_refill (refill_rate * b.multiplier) refl refl h
