-- ===== src/Api/Middleware.antt =====
-- The rate limit of executor/api/main.py: a window of the last sixty seconds for each client. Times are
-- those of a clock that does not go back, in microseconds. `time` and `deque` are taken as imported.
pub mod Bucket
pub mod Window
pub mod Retry
use integrated_work.Prelude.{
  ℕ, ◌+◌, ◌-◌, ◌*◌, ◌/◌, Bool, true, false, not, ◌&&◌, ◌||◌, Option, none, some, List, [], ◌∷◌,
  ◌++◌, length, any, leb, ltb, if◌then◌else◌,
}
use integrated_work.Text.{Text, txt, text_eq, starts_with, has_part, split_on, strip}
use integrated_work.Dict.{Dict, get, put}

-- _INFRA_PATHS
abbrev pub infra_paths : List Text
infra_paths = txt "/health" ∷ txt "/metrics" ∷ txt "/docs" ∷ txt "/redoc" ∷ txt "/openapi.json" ∷ []

unfoldable pub is_infra_path : Text → Bool
unfolding any starts_with text_eq
is_infra_path path = any (λ p. starts_with path p) infra_paths || text_eq path (txt "/")

unfoldable pub is_stream_path : Text → Bool
unfolding has_part
is_stream_path path = has_part path (txt "/stream/")

-- What the middleware reads of a request: the header x-forwarded-for and request.client.host.
pub record Request : Type 0 where
  pub method : Text
  pub path : Text
  pub forwarded_for : Option Text
  pub client_host : Option Text

pub record Limits : Type 0 where
  pub rate_limit_enabled : Bool
  pub rate_limit_per_minute : ℕ
  pub request_timeout_seconds : ℕ

unfoldable pub first_part : List Text → Text
first_part [] = []
first_part (p ∷ ps) = p

unfoldable pub host_or_unknown : Option Text → Text
host_or_unknown none = txt "unknown"
host_or_unknown (some host) = host

unfoldable pub client_ip : Request → Text
unfolding first_part host_or_unknown
client_ip request = elim request.forwarded_for [
  | none ↦ host_or_unknown request.client_host
  | some fwd ↦
      let named = strip (first_part (split_on b',' fwd)) in
      if text_eq fwd [] then host_or_unknown request.client_host else named
]

-- The conditions under which a request is not counted.
unfoldable pub is_exempt : Limits → Request → Bool
unfolding is_infra_path
is_exempt limits request =
    not limits.rate_limit_enabled
    || text_eq request.method (txt "OPTIONS")
    || is_infra_path request.path

abbrev pub window : ℕ
window = 60000000

-- `while bucket and now - bucket[0] > window: bucket.popleft()`
unfoldable pub drop_old : (now : ℕ) → List ℕ → List ℕ
drop_old now [] = []
drop_old now (t ∷ bucket) =
    let rest = drop_old now bucket in if ltb window (now - t) then rest else t ∷ bucket

-- call_next, the answer 429 with its Retry-After in seconds, or an IndexError.
pub data Outcome : Type 0 where
  passed : Outcome
  limited : (retry_after : ℕ) → Outcome
  crashed : Outcome

unfoldable pub retry_after : (now : ℕ) → List ℕ → Outcome
retry_after now [] = crashed
retry_after now (t ∷ bucket) = limited ((window - (now - t)) / 1000000 + 1)

unfoldable pub admit : (limit now : ℕ) → List ℕ → Outcome × List ℕ
admit limit now bucket =
    if leb limit (length bucket)
    then (retry_after now bucket, bucket)
    else (passed, bucket ++ now ∷ [])

unfoldable pub bucket_of : Text → Dict (List ℕ) → List ℕ
bucket_of ip buckets = elim (get ip buckets) [ none ↦ [] | some bucket ↦ bucket ]

unfoldable pub rate_limit_middleware :
    Limits → (now : ℕ) → Request → Dict (List ℕ) → Outcome × Dict (List ℕ)
rate_limit_middleware limits now request buckets =
    let ip = client_ip request in
    let (outcome, bucket) =
      admit limits.rate_limit_per_minute now (drop_old now (bucket_of ip buckets)) in
    if is_exempt limits request then (passed, buckets) else (outcome, put ip bucket buckets)

-- Whether request_timeout_middleware lets a request run without a limit of time.
unfoldable pub is_untimed : Limits → Request → Bool
unfolding is_stream_path starts_with
is_untimed limits request =
    leb limits.request_timeout_seconds 0
    || is_stream_path request.path
    || starts_with request.path (txt "/metrics")

-- 504 when the answer takes longer, in microseconds, than the setting allows.
unfoldable pub request_timeout_middleware : Limits → Request → (status lasts : ℕ) → ℕ
unfolding is_untimed
request_timeout_middleware limits request status lasts =
    if is_untimed limits request
    then status
    else if leb (limits.request_timeout_seconds * 1000000) lasts
    then 504
    else status
