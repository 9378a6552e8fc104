-- ===== src/RateLimiter/Alone.antt =====
-- The buckets of _LocalTokenBucket: requests to several keys, one after the other.
use integrated_work.Prelude.{
  ℕ, ◌+◌, ◌≡◌, ◌∙◌, refl, Bool, true, false, if◌then◌else◌, Bool-cases, inl, inr, some, List, [],
  ◌∷◌, arith,
}
use integrated_work.Text.{Text, text_eq}
use integrated_work.Text.Laws.{text_eq_iff, text_eq_refl}
use integrated_work.Dict.{Dict, get}
use integrated_work.Dict.Laws.{get-put}
use integrated_work.RateLimiter.{Bucket, acquire, acquire_from, bucket_or, new_bucket}
use integrated_work.RateLimiter.Budget.{run}

pub record Request : Type 0 where
  pub key : Text
  pub now : ℕ
  pub requested : ℕ

-- The requests to a key, as those of one bucket.
unfoldable pub requests_of : Text → List Request → List (ℕ × ℕ)
requests_of k [] = []
requests_of k (r ∷ rs) =
    let rest = requests_of k rs in if text_eq r.key k then (r.now, r.requested) ∷ rest else rest

acquire-own :
    (k : Text) (capacity rate requested now : ℕ) (b : Bucket) (buckets : Dict Bucket)
    → get k buckets ≡ some b
    → ((acquire k capacity rate requested now buckets).0
        ≡ (acquire_from capacity rate requested now b).0)
      × (get k (acquire k capacity rate requested now buckets).1
          ≡ some (acquire_from capacity rate requested now b).1)
unfolding acquire bucket_or
acquire-own k capacity rate requested now b buckets found =
    let c = (acquire_from capacity rate requested now b).1 in
    let last = get-put k k c buckets in
    let same = text_eq_refl k in (rw (found) refl, rw (found) (ground (arith, last, same)))

module _ (capacity rate : Text → ℕ) where
  abbrev pub answered : Request → Dict Bucket → Bool × Dict Bucket
  answered r = acquire r.key (capacity r.key) (rate r.key) r.requested r.now

  -- The tokens that a key is given, and the buckets behind the requests.
  unfoldable pub run_all : Text → List Request → Dict Bucket → ℕ × Dict Bucket
  run_all k [] buckets = (0, buckets)
  run_all k (r ∷ rs) buckets =
      let (done, after) = answered r buckets in
      let (given, last) = run_all k rs after in
      (if text_eq r.key k then if done then r.requested + given else given else given, last)

  acquire-same :
      (k : Text) (r : Request) (b : Bucket) (buckets : Dict Bucket)
      → text_eq r.key k ≡ true
      → get k buckets ≡ some b
      → ((answered r buckets).0 ≡ (acquire_from (capacity k) (rate k) r.requested r.now b).0)
        × (get k (answered r buckets).1
            ≡ some (acquire_from (capacity k) (rate k) r.requested r.now b).1)
  acquire-same k r b buckets same found =
      let e : r.key ≡ k = (text_eq_iff r.key k).0 same in
      rw (e) (acquire-own k (capacity k) (rate k) r.requested r.now b buckets found)

  acquire-other :
      (k : Text) (r : Request) (buckets : Dict Bucket)
      → text_eq r.key k ≡ false
      → get k (answered r buckets).1 ≡ get k buckets
  unfolding acquire
  acquire-other k r buckets other =
      let b = bucket_or (new_bucket (capacity r.key) r.now) (get r.key buckets) in
      let c = (acquire_from (capacity r.key) (rate r.key) r.requested r.now b).1 in
      ground (arith, get-put k r.key c buckets, other)

  -- Each bucket behaves as if it were alone: whatever requests to all keys there are, a key whose
  -- bucket is there is given what its own requests alone take from that bucket, and is left with the
  -- bucket that they leave.
  pub run_all-run :
      (k : Text) (rs : List Request) (b : Bucket) (buckets : Dict Bucket)
      → get k buckets ≡ some b
      → ((run_all k rs buckets).0 ≡ (run (capacity k) (rate k) (requests_of k rs) b).0)
        × (get k (run_all k rs buckets).1 ≡ some (run (capacity k) (rate k) (requests_of k rs) b).1)
  unfolding run_all run requests_of
  run_all-run k [] b buckets found = (refl, found)
  run_all-run k (r ∷ rs) b buckets found =
      let after = (answered r buckets).1 in
      let c = (acquire_from (capacity k) (rate k) r.requested r.now b).1 in
      elim (Bool-cases (text_eq r.key k)) [
        | inl same ↦
            let (done, left) = acquire-same k r b buckets same found in
            let (given, last) = run_all-run k rs c after left in
            rw (same) (rw (done, given) refl, last)
        | inr other ↦
            rw (other) (run_all-run k rs b after (acquire-other k r buckets other ∙ found))
      ]
