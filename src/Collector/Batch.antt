-- ===== src/Collector/Batch.antt =====
-- `process_buffered` does what `batch_compare` and `classify_all` do on the pairs of the buffer.
use mathlib.Core.List.{append-nil, append_assoc}
use integrated_work.Prelude.{
  ℕ, ◌≡◌, refl, Bool, List, [], ◌∷◌, ◌++◌, map, arith, length, ltb, if◌then◌else◌,
}
use integrated_work.Text.{Text}
use integrated_work.Dict.{Dict}
use integrated_work.Models.{ScanResponse, DiffResult, Issue}
use integrated_work.Runtime.{Runtime}
use integrated_work.DiffEngine.Compare.{compare_responses, batch_compare}
use integrated_work.Classifier.Classify.{classify_diff, classify_all}
use integrated_work.Collector.{
  Collector, Progress, build_pairs, process_pair, process_pairs, process_entries, process_buffered,
}

module _ (rt : Runtime) where
  -- The pairs of the buffer, in the order in which they are compared; an endpoint with one response
  -- has none.
  unfoldable pub all_pairs : Text → Dict (List ScanResponse) → List (ScanResponse × ScanResponse)
  all_pairs role [] = []
  all_pairs role ((key, responses) ∷ rest) =
      (if ltb (length responses) 2 then [] else build_pairs rt role responses)
      ++ all_pairs role rest

  module _ (threshold : ℕ) (has_callback : Bool) where
    abbrev compared : List (ScanResponse × ScanResponse) → List DiffResult
    compared pairs = map (λ x. compare_responses rt x.0 x.1 threshold) pairs

    abbrev classified : ℕ → List (ScanResponse × ScanResponse) → List Issue × ℕ
    classified n pairs = classify_all rt n (batch_compare rt pairs threshold)

    -- The outcome of a pass, from the batch functions.
    abbrev passed : List (ScanResponse × ScanResponse) → Progress → Progress
    passed pairs p = record {
      diffs = p.diffs ++ compared pairs;
      found = p.found ++ (classified p.drawn pairs).0;
      calls = if has_callback then p.calls ++ (classified p.drawn pairs).0 else p.calls;
      drawn = (classified p.drawn pairs).1;
    }

    process_pairs-passed :
        (pairs : List (ScanResponse × ScanResponse)) (p : Progress)
        → process_pairs rt threshold has_callback pairs p ≡ passed pairs p
    unfolding process_pairs process_pair batch_compare classify_all
    process_pairs-passed [] p =
        ground (arith, append-nil p.diffs, append-nil p.found, append-nil p.calls)
    process_pairs-passed ((a, b) ∷ pairs) p =
        let d = compare_responses rt a b threshold in
        let (here, n) = classify_diff rt p.drawn d in
        let later = (classified n pairs).0 in
        ground (
          arith,
          process_pairs-passed pairs (process_pair rt threshold has_callback (a, b) p),
          append_assoc p.diffs (d ∷ []) (compared pairs),
          append_assoc p.found here later,
          append_assoc p.calls here later,
        )

    process_pairs-append :
        (xs ys : List (ScanResponse × ScanResponse)) (p : Progress)
        → process_pairs rt threshold has_callback (xs ++ ys) p
          ≡ process_pairs rt threshold has_callback ys
              (process_pairs rt threshold has_callback xs p)
    unfolding process_pairs
    process_pairs-append [] ys p = refl
    process_pairs-append (x ∷ xs) ys p =
        process_pairs-append xs ys (process_pair rt threshold has_callback x p)

    process_entries-pairs :
        (role : Text) (buffer : Dict (List ScanResponse)) (p : Progress)
        → process_entries rt threshold has_callback role buffer p
          ≡ process_pairs rt threshold has_callback (all_pairs role buffer) p
    unfolding process_entries all_pairs process_pairs
    process_entries-pairs role [] p = refl
    process_entries-pairs role ((key, responses) ∷ rest) p =
        let pairs = build_pairs rt role responses in
        let next = process_pairs rt threshold has_callback pairs p in
        ground (
          arith,
          process_entries-pairs role rest p,
          process_entries-pairs role rest next,
          process_pairs-append pairs (all_pairs role rest) p,
        )

  -- Processing appends the comparisons of all pairs of the buffer to `_diffs`; it returns, keeps as
  -- `_issues`, and hands to the callback if one is set, the issues that `classify_all` finds in what
  -- `batch_compare` returns for these pairs; and it leaves the buffer and the count as they were.
  pub process_buffered-eq-batch :
      (c : Collector)
      → let pairs = all_pairs c.reference_role c.buffer in
        let batch = batch_compare rt pairs c.similarity_threshold in
        let found = (classify_all rt c.drawn batch).0 in
        process_buffered rt c ≡ (
          found,
          record c {
            diffs = c.diffs ++ map (λ x. compare_responses rt x.0 x.1 c.similarity_threshold) pairs;
            issues = found;
            calls = if c.has_callback then c.calls ++ found else c.calls;
            drawn = (classify_all rt c.drawn batch).1;
          },
        )
  unfolding process_buffered
  process_buffered-eq-batch c =
      let start : Progress = record {
        diffs = c.diffs;
        found = [];
        calls = c.calls;
        drawn = c.drawn;
      } in
      let pairs = all_pairs c.reference_role c.buffer in
      rw
        (process_entries-pairs c.similarity_threshold c.has_callback c.reference_role c.buffer
          start)
        (rw (process_pairs-passed c.similarity_threshold c.has_callback pairs start) refl)
