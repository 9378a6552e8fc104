-- ===== src/Collector/Invariant.antt =====
-- What the collector's buffer and counter hold after any results.
use integrated_work.Prelude.{
  ℕ, ◌+◌, ◌≡◌, refl, List, [], ◌∷◌, ◌++◌, keep, arith, length, length-append, if◌then◌else◌,
}
use mathlib.Core.List.{append_assoc, append-nil}
use integrated_work.Text.{Text, text_eq}
use integrated_work.Text.Laws.{text_eq_iff}
use integrated_work.Dict.{Dict, get, put, keys}
use integrated_work.Dict.Laws.{get-put, Distinct, put-Distinct}
use integrated_work.Models.{ScanResponse}
use integrated_work.Runtime.{Runtime}
use integrated_work.Collector.{
  Collector, buffer_key, buffered, on_result, on_results_batch, process_buffered, processed, flush,
  reset,
}

buffered-on_result :
    (k : Text) (r : ScanResponse) (c : Collector)
    → buffered k (on_result r c).buffer
      ≡ (if text_eq (buffer_key r) k then buffered k c.buffer ++ r ∷ [] else buffered k c.buffer)
unfolding on_result buffered
buffered-on_result k r c = ground (
  arith,
  text_eq_iff (buffer_key r) k,
  get-put k (buffer_key r) (buffered (buffer_key r) c.buffer ++ r ∷ []) c.buffer,
)

-- After a batch, the buffer of an endpoint has the responses that it had and then those of the batch
-- with its method and endpoint, in the order of arrival.
pub buffered-on_results_batch :
    (k : Text) (rs : List ScanResponse) (c : Collector)
    → buffered k (on_results_batch rs c).buffer
      ≡ buffered k c.buffer ++ keep (λ r. text_eq (buffer_key r) k) rs
unfolding on_results_batch keep
buffered-on_results_batch k [] c = ground (arith, append-nil (buffered k c.buffer))
buffered-on_results_batch k (r ∷ rs) c =
    let rest = keep (λ (s : ScanResponse). text_eq (buffer_key s) k) rs in
    ground (
      arith,
      buffered-on_results_batch k rs (on_result r c),
      buffered-on_result k r c,
      append_assoc (buffered k c.buffer) (r ∷ []) rest,
    )

-- The number of responses in a buffer.
abbrev pub held : Dict (List ScanResponse) → ℕ
held [] = 0
held ((k, rs) ∷ d) = length rs + held d

held-put :
    (k : Text) (r : ScanResponse) (d : Dict (List ScanResponse))
    → held (put k (buffered k d ++ r ∷ []) d) ≡ held d + 1
unfolding put buffered get
held-put k r [] = refl
held-put k r ((j, rs) ∷ d) = ground (arith, held-put k r d, length-append rs (r ∷ []))

-- The counter is the number of responses in the buffer, and no endpoint has two entries.
pub record IsCounted (c : Collector) : Type 0 where
  pub counted : c.request_count ≡ held c.buffer
  pub distinct : Distinct (keys c.buffer)

pub on_result-IsCounted :
    (r : ScanResponse) (c : Collector) → IsCounted c → IsCounted (on_result r c)
unfolding on_result
on_result-IsCounted r c h = record {
  counted = omega (arith, held-put (buffer_key r) r c.buffer, h.counted);
  distinct =
      put-Distinct (buffer_key r) (buffered (buffer_key r) c.buffer ++ r ∷ []) c.buffer h.distinct;
}

on_results_batch-IsCounted :
    (rs : List ScanResponse) (c : Collector) → IsCounted c → IsCounted (on_results_batch rs c)
unfolding on_results_batch
on_results_batch-IsCounted [] c h = h
on_results_batch-IsCounted (r ∷ rs) c h =
    on_results_batch-IsCounted rs (on_result r c) (on_result-IsCounted r c h)

module _ (rt : Runtime) where
  process_buffered-IsCounted : (c : Collector) → IsCounted c → IsCounted (process_buffered rt c).1
  unfolding process_buffered
  process_buffered-IsCounted c h = record { counted = h.counted; distinct = h.distinct }

  flush-IsCounted : (c : Collector) → IsCounted c → IsCounted (flush rt c).1
  unfolding flush processed
  flush-IsCounted c h = ground (arith, process_buffered-IsCounted c h)

  reset-IsCounted : (c : Collector) → IsCounted (reset rt c)
  unfolding reset keys
  reset-IsCounted c = record { counted = refl; distinct = tt }

  -- The calls of the collector's methods, in any order.
  pub data Reach (c : Collector) : Collector → Type 0 where
    here : Reach c c
    result : {d : Collector} (r : ScanResponse) → Reach c d → Reach c (on_result r d)
    batch : {d : Collector} (rs : List ScanResponse) → Reach c d → Reach c (on_results_batch rs d)
    process : {d : Collector} → Reach c d → Reach c (process_buffered rt d).1
    flushed : {d : Collector} → Reach c d → Reach c (flush rt d).1
    cleared : {d : Collector} → Reach c d → Reach c (reset rt d)

  -- Whatever methods are called, in whatever order, the counter stays the number of responses in the
  -- buffer, and the buffer's keys stay distinct.
  pub Reach-IsCounted : {c d : Collector} → IsCounted c → Reach c d → IsCounted d
  Reach-IsCounted h here = h
  Reach-IsCounted h (result {d} r w) = on_result-IsCounted r d (Reach-IsCounted h w)
  Reach-IsCounted h (batch {d} rs w) = on_results_batch-IsCounted rs d (Reach-IsCounted h w)
  Reach-IsCounted h (process {d} w) = process_buffered-IsCounted d (Reach-IsCounted h w)
  Reach-IsCounted h (flushed {d} w) = flush-IsCounted d (Reach-IsCounted h w)
  Reach-IsCounted h (cleared {d} w) = reset-IsCounted d
