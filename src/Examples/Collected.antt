-- ===== src/Examples/Collected.antt =====
-- A collector on the sample responses.
use integrated_work.Prelude.{
  ◌+◌, ◌≡◌, refl, true, not, some, [], ◌∷◌, ◌++◌, map, keep, any, length, if◌then◌else◌,
}
use mathlib.Core.Option
use integrated_work.Text.{txt, text_eq, contains}
use integrated_work.Dict.{keys}
use integrated_work.DiffEngine.Compare.{judge, foreign_ids, compare_responses, batch_compare}
use integrated_work.DiffEngine.Ids.{extract_ids}
use integrated_work.Classifier.Classify.{classify_all}
use integrated_work.Collector.{
  Collector, on_result, on_results_batch, is_reference, build_pairs, process_buffered,
  process_entries, process_pairs, process_pair, flush, stats,
}
use integrated_work.Collector.Pairs
use integrated_work.Collector.Batch
use integrated_work.Collector.Flush
use integrated_work.Collector.Invariant
use integrated_work.Examples.Samples.{sample, owner, intruder, refused}

-- ScanResultCollector("http://api", on_issue=…), with a threshold of 0.65.
abbrev fresh : Collector
fresh = record {
  target_url = txt "http://api";
  scan_name = txt "API Security Scan";
  similarity_threshold = 6500;
  reference_role = txt "admin";
  has_callback = true;
  buffer = [];
  diffs = [];
  issues = [];
  request_count = 0;
  scan_start = 0;
  calls = [];
  drawn = 0;
}

abbrev filled : Collector
filled = on_results_batch (owner ∷ intruder ∷ refused ∷ []) fresh

-- The owner is answered and another user refused: a pair, and no anomaly.
abbrev quiet : Collector
quiet = on_results_batch (owner ∷ refused ∷ []) fresh

paired :
    build_pairs sample (txt "ADMIN") (intruder ∷ owner ∷ refused ∷ [])
    ≡ (owner, intruder) ∷ (owner, refused) ∷ []
unfolding build_pairs
paired = refl

endpoints : (stats filled).endpoints_buffered ≡ 1
unfolding stats on_results_batch on_result text_eq
endpoints = refl

fresh-IsCounted : Invariant.IsCounted fresh
unfolding keys
fresh-IsCounted = record { counted = refl; distinct = tt }

Reach-IsCounted_example :
    Invariant.IsCounted
      (process_buffered sample (on_result intruder (on_results_batch (owner ∷ []) fresh))).1
Reach-IsCounted_example = Invariant.Reach-IsCounted sample fresh-IsCounted (
    Invariant.Reach.process
      (Invariant.Reach.result intruder (Invariant.Reach.batch (owner ∷ []) Invariant.Reach.here)))

build_pairs-product_example :
    build_pairs sample (txt "ADMIN") (intruder ∷ owner ∷ [])
    ≡ Pairs.product
        (keep (is_reference (txt "ADMIN")) (intruder ∷ owner ∷ []))
        (keep (λ r. not (is_reference (txt "ADMIN") r)) (intruder ∷ owner ∷ []))
unfolding is_reference any
build_pairs-product_example =
    Pairs.build_pairs-product sample (txt "ADMIN") (intruder ∷ owner ∷ []) refl

process_buffered-eq-batch_example :
    let pairs = Batch.all_pairs sample filled.reference_role filled.buffer in
    let batch = batch_compare sample pairs filled.similarity_threshold in
    let found = (classify_all sample filled.drawn batch).0 in
    process_buffered sample filled ≡ (
      found,
      record filled {
        diffs =
            filled.diffs
            ++ map (λ x. compare_responses sample x.0 x.1 filled.similarity_threshold) pairs;
        issues = found;
        calls = if filled.has_callback then filled.calls ++ found else filled.calls;
        drawn = (classify_all sample filled.drawn batch).1;
      },
    )
process_buffered-eq-batch_example = Batch.process_buffered-eq-batch sample filled

flush-after_process_example :
    Option.map (λ m. m.total_diffs) (flush sample (process_buffered sample quiet).1).0.metadata
    ≡ some (
        length quiet.diffs
        + length (Batch.all_pairs sample quiet.reference_role quiet.buffer)
        + length (Batch.all_pairs sample quiet.reference_role quiet.buffer))
unfolding process_buffered on_results_batch process_entries on_result text_eq process_pairs
    build_pairs process_pair compare_responses judge foreign_ids extract_ids contains
flush-after_process_example = Flush.flush-after_process sample quiet refl
