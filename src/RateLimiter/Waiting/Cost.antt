-- ===== src/RateLimiter/Waiting/Cost.antt =====
-- RateLimiter.acquire: what a round takes from the global bucket.
use integrated_work.Prelude.{
  ℕ, suc, ◌-◌, ◌≡◌, ◌≤◌, ◌∙◌, refl, Bool, true, false, not, ◌&&◌, Option, none, some, List, [], ◌∷◌,
  ◌++◌, and_cases, ltb, if◌then◌else◌, arith,
}
use integrated_work.Text.{Text, txt, text_eq}
use integrated_work.Text.Laws.{text_eq_iff}
use integrated_work.Dict.{Dict, get}
use integrated_work.Dict.Laws.{get-put}
use integrated_work.RateLimiter.{
  Bucket, parts, acquire, refilled, take_tokens, acquire_from, bucket_or, new_bucket,
}
use integrated_work.RateLimiter.Waiting.{
  RateLimitConfig, Limit, limits, domain_limits, global_key, scan_key, acquire_round,
}

-- None of the limits is of the key.
unfoldable pub apart : Text → List Limit → Bool
apart k [] = true
apart k (l ∷ ls) = not (text_eq l.key k) && apart k ls

get-acquire :
    (k key : Text) (capacity refill_rate requested now : ℕ) (buckets : Dict Bucket)
    → text_eq key k ≡ false
    → get k (acquire key capacity refill_rate requested now buckets).1 ≡ get k buckets
unfolding acquire
get-acquire k key capacity refill_rate requested now buckets other =
    let b = bucket_or (new_bucket capacity now) (get key buckets) in
    let c = (acquire_from capacity refill_rate requested now b).1 in
    ground (arith, get-put k key c buckets, other)

get-acquire_round :
    (tokens : ℕ) (reading : ℕ → ℕ) (next : ℕ) (k : Text) (ls : List Limit) (buckets : Dict Bucket)
    → apart k ls ≡ true
    → get k (acquire_round tokens reading next ls buckets).1 ≡ get k buckets
unfolding acquire_round apart
get-acquire_round tokens reading next k [] buckets h = refl
get-acquire_round tokens reading next k (l ∷ ls) buckets h =
    let (other, others) = and_cases (not (text_eq l.key k)) (apart k ls) h in
    let after = (acquire l.key l.rate l.rate tokens (reading next) buckets).1 in
    let first : get k after ≡ get k buckets =
      get-acquire k l.key l.rate l.rate tokens (reading next) buckets (ground (arith, other)) in
    let rest = get-acquire_round tokens reading (suc next) k ls after others in
    ground (arith, first, rest)

apart-if :
    (k : Text) (b : Bool) (ls ms : List Limit)
    → apart k (ls ++ ms) ≡ true
    → apart k ms ≡ true
    → apart k ((if b then ls else []) ++ ms) ≡ true
apart-if k true ls ms h g = h
apart-if k false ls ms h g = g

apart-global :
    (domain scan_id : Text) (rate : Option ℕ)
    → apart global_key
        (domain_limits domain rate ++ record { key = scan_key scan_id; rate = 1000000 } ∷ [])
      ≡ true
unfolding apart domain_limits text_eq
apart-global domain scan_id none = refl
apart-global domain scan_id (some rate) =
    apart-if global_key (ltb 0 rate) (record { key = txt "rl:domain:" ++ domain; rate = rate } ∷ [])
      (record { key = scan_key scan_id; rate = 1000000 } ∷ []) refl refl

paid :
    (key : Text) (capacity refill_rate requested now : ℕ) (b : Bucket) (buckets : Dict Bucket)
    → get key buckets ≡ some b
    → parts requested ≤ (refilled capacity refill_rate now b).tokens
    → ((acquire key capacity refill_rate requested now buckets).0 ≡ true)
      × (get key (acquire key capacity refill_rate requested now buckets).1
          ≡ some (
              let c = refilled capacity refill_rate now b in
              record c { tokens = c.tokens - parts requested }))
unfolding acquire bucket_or acquire_from take_tokens
paid key capacity refill_rate requested now b buckets found enough =
    let c = refilled capacity refill_rate now b in
    let d = (take_tokens requested c).1 in
    let last = get-put key key d buckets in ground (arith, found, enough, last, text_eq_iff key key)

-- A round to which the global bucket gives its tokens leaves that bucket without them, whatever the
-- other buckets answer: where one of them refuses, the tokens are not given back.
pub get-paid :
    (tokens : ℕ) (reading : ℕ → ℕ) (next : ℕ) (config : RateLimitConfig) (domain scan_id : Text)
    (b : Bucket) (buckets : Dict Bucket)
    → get global_key buckets ≡ some b
    → parts tokens ≤ (refilled config.global_limit config.global_limit (reading next) b).tokens
    → get global_key (acquire_round tokens reading next (limits config domain scan_id) buckets).1
      ≡ some (
          let c = refilled config.global_limit config.global_limit (reading next) b in
          record c { tokens = c.tokens - parts tokens })
unfolding acquire_round limits
get-paid tokens reading next config domain scan_id b buckets found enough =
    let (given, left) =
      paid global_key config.global_limit config.global_limit tokens (reading next) b buckets found
        enough in
    let after =
      (acquire global_key config.global_limit config.global_limit tokens (reading next)
        buckets).1 in
    let others =
      domain_limits domain (get domain config.domains)
      ++ record { key = scan_key scan_id; rate = 1000000 } ∷ [] in
    let kept =
      get-acquire_round tokens reading (suc next) global_key others after
        (apart-global domain scan_id (get domain config.domains)) in
    rw (given) (kept ∙ left)
