-- ===== src/Api/Charts.antt =====
-- The charts of executor/api/routes.py: get_scan_telemetry and get_scan_timeline, from the rows of their
-- query. A time is in microseconds from 1970 and a latency in microseconds, with exact averages.
pub mod Sums
use integrated_work.Prelude.{
  ℕ, ◌+◌, ◌*◌, ◌/◌, ◌%◌, Bool, true, false, ◌||◌, Option, none, some, List, [], ◌∷◌, ◌++◌, map, leb,
  ltb, ◌==◌, if◌then◌else◌,
}
use integrated_work.Text.{Text, txt, show_nat}
use integrated_work.Dict.{Dict, get, put}
use integrated_work.Auth.Tokens.{blank}
use integrated_work.DiffEngine.Similarity.{round_half_even}

pub record Response : Type 0 where
  pub created_at : Option ℕ
  pub latency_ms : Option ℕ
  pub error_message : Option Text
  pub status_code : Option ℕ

-- A row of the outer join.
pub record Row : Type 0 where
  pub task_created_at : Option ℕ
  pub response : Option Response

pub record Bucket : Type 0 where
  pub requests : ℕ
  pub latency_total : ℕ
  pub latency_count : ℕ
  pub failures : ℕ

abbrev pub empty_bucket : Bucket
empty_bucket = record { requests = 0; latency_total = 0; latency_count = 0; failures = 0 }

unfoldable pub or_now : ℕ → Option ℕ → ℕ
or_now now none = now
or_now now (some t) = t

-- (response.created_at if response else task.created_at) or now
unfoldable pub timestamp : (now : ℕ) → Row → ℕ
unfolding or_now
timestamp now row = elim row.response [
  | none ↦ or_now now row.task_created_at
  | some response ↦ or_now now response.created_at
]

-- .replace(second=0, microsecond=0)
unfoldable pub bucket_time : ℕ → ℕ
bucket_time t = t / 60000000 * 60000000

two_digits : ℕ → Text
two_digits n = if ltb n 10 then b'0' ∷ show_nat n else show_nat n

-- .strftime("%H:%M")
unfoldable pub hour_minute : ℕ → Text
unfolding two_digits
hour_minute t =
    let minute = t / 60000000 in two_digits (minute / 60 % 24) ++ b':' ∷ two_digits (minute % 60)

unfoldable pub at_least_400 : Option ℕ → Bool
at_least_400 none = false
at_least_400 (some code) = leb 400 code

-- response.error_message or (response.status_code is not None and response.status_code >= 400)
unfoldable pub is_failure : Response → Bool
unfolding at_least_400
is_failure r = (if blank r.error_message then false else true) || at_least_400 r.status_code

unfoldable pub add_latency : Option ℕ → Bucket → Bucket
add_latency none b = b
add_latency (some l) b = record b {
  latency_total = b.latency_total + l;
  latency_count = b.latency_count + 1;
}

unfoldable pub add_failure : Bool → Bucket → Bucket
add_failure false b = b
add_failure true b = record b { failures = b.failures + 1 }

unfoldable pub add_response : Option Response → Bucket → Bucket
unfolding add_latency add_failure
add_response none b = b
add_response (some r) b =
    add_failure (is_failure r) (add_latency r.latency_ms (record b { requests = b.requests + 1 }))

unfoldable pub or_empty : Option Bucket → Bucket
or_empty none = empty_bucket
or_empty (some b) = b

-- buckets.setdefault(label, …)
unfoldable pub bucket_at : Text → Dict Bucket → Bucket
unfolding get or_empty
bucket_at label buckets = or_empty (get label buckets)

-- round(latency_total / latency_count, 2) in milliseconds, in hundredths; 0 without a latency
unfoldable pub mean_latency : Bucket → ℕ
unfolding round_half_even
mean_latency b =
    if b.latency_count == 0 then 0 else round_half_even b.latency_total (b.latency_count * 10)

pub record Point : Type 0 where
  pub name : Text
  pub requests : ℕ
  pub latency : ℕ
  pub failures : ℕ

unfoldable pub point : Text × Bucket → Point
unfolding mean_latency
point (label, b) = record {
  name = label;
  requests = b.requests;
  latency = mean_latency b;
  failures = b.failures;
}

module _ (label : ℕ → Text) (now : ℕ) where
  unfoldable pub add_row : Row → Dict Bucket → Dict Bucket
  unfolding bucket_at put
  add_row row buckets =
      let name = label (bucket_time (timestamp now row)) in
      put name (add_response row.response (bucket_at name buckets)) buckets

  unfoldable pub add_rows : List Row → Dict Bucket → Dict Bucket
  add_rows [] buckets = buckets
  add_rows (row ∷ rows) buckets = add_rows rows (add_row row buckets)

  unfoldable pub chart : List Row → List Point
  chart rows = map point (add_rows rows [])

unfoldable pub get_scan_telemetry : (now : ℕ) → List Row → List Point
get_scan_telemetry now rows = chart hour_minute now rows

-- The same with the whole time as the label, which `isoformat` writes, and the depth of the queues.
unfoldable pub get_scan_timeline :
    (isoformat : ℕ → Text) (now queue_depth : ℕ) → List Row → List (Point × ℕ)
get_scan_timeline isoformat now queue_depth rows =
    map (λ p. (p, queue_depth)) (chart isoformat now rows)
