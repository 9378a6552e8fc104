-- ===== src/Collector/Flush.antt =====
-- What the report of `flush` says.
use mathlib.Core.Option
use mathlib.Core.Path.{ap₂}
use integrated_work.Prelude.{
  suc, ◌+◌, ◌≡◌, refl, ap, ◌∙◌, some, List, [], ◌∷◌, ◌++◌, map, arith, length, length-append,
}
use integrated_work.Models.{ScanResponse, DiffResult}
use integrated_work.Runtime.{Runtime}
use integrated_work.DiffEngine.Compare.{compare_responses, batch_compare}
use integrated_work.Classifier.Classify.{classify_all}
use integrated_work.Report.{build_report, sorted_issues}
use integrated_work.Collector.{Collector, metadata_of, process_buffered, processed, flush}
use integrated_work.Collector.Batch.{all_pairs, process_buffered-eq-batch}

length-map : {A B : Type 0} (f : A → B) (xs : List A) → length (map f xs) ≡ length xs
length-map f [] = refl
length-map f (x ∷ xs) = ap suc (length-map f xs)

module _ (rt : Runtime) (c : Collector) where
  -- The comparisons of the buffer's pairs that are anomalies.
  abbrev pub anomalies : List DiffResult
  anomalies = batch_compare rt (all_pairs rt c.reference_role c.buffer) c.similarity_threshold

  processed-fresh : c.issues ≡ [] → processed rt c ≡ (process_buffered rt c).1
  unfolding processed
  processed-fresh e = ground arith

  diffs-process :
      (process_buffered rt c).1.diffs
      ≡ c.diffs
        ++ map
            (λ x. compare_responses rt x.0 x.1 c.similarity_threshold)
            (all_pairs rt c.reference_role c.buffer)
  diffs-process = ap (λ r. r.1.diffs) (process_buffered-eq-batch rt c)

  length-diffs-process :
      length (process_buffered rt c).1.diffs
      ≡ length c.diffs + length (all_pairs rt c.reference_role c.buffer)
  length-diffs-process =
      let compare =
        λ (x : ScanResponse × ScanResponse). compare_responses rt x.0 x.1 c.similarity_threshold in
      let pairs = all_pairs rt c.reference_role c.buffer in
      rw diffs-process
        (omega (arith, length-append c.diffs (map compare pairs), length-map compare pairs))

  pub issues-found : (process_buffered rt c).1.issues ≡ (process_buffered rt c).0
  unfolding process_buffered
  issues-found = refl

  issues-process : (process_buffered rt c).1.issues ≡ (classify_all rt c.drawn anomalies).0
  issues-process = ap (λ r. r.1.issues) (process_buffered-eq-batch rt c)

  -- With no issues kept from before, `flush` reports the issues that the classifier finds in the
  -- anomalies of the buffer, sorted, with their number, the buffer's endpoints and the requests
  -- counted; and its metadata counts the earlier comparisons and one for each pair.
  pub flush-fresh :
      c.issues ≡ []
      → let report = (flush rt c).0 in
        (report.issues ≡ sorted_issues (classify_all rt c.drawn anomalies).0)
        × (report.summary.total_issues ≡ length (classify_all rt c.drawn anomalies).0)
        × (report.summary.total_endpoints ≡ length c.buffer)
        × (report.summary.total_requests ≡ c.request_count)
        × (Option.map (λ m. m.total_diffs) report.metadata
            ≡ some (length c.diffs + length (all_pairs rt c.reference_role c.buffer)))
  unfolding flush build_report metadata_of
  flush-fresh e = rw (processed-fresh e) (
    ap sorted_issues issues-process,
    ap length issues-process,
    ap (λ r. length r.1.buffer) (process_buffered-eq-batch rt c),
    ap (λ r. r.1.request_count) (process_buffered-eq-batch rt c),
    ap some length-diffs-process,
  )

module _ (rt : Runtime) (c : Collector) where
  buffer-process : (process_buffered rt c).1.buffer ≡ c.buffer
  buffer-process = ap (λ r. r.1.buffer) (process_buffered-eq-batch rt c)

  role-process : (process_buffered rt c).1.reference_role ≡ c.reference_role
  role-process = ap (λ r. r.1.reference_role) (process_buffered-eq-batch rt c)

  -- Where `process_buffered` has found nothing, a `flush` behind it processes the same buffer again:
  -- its metadata counts every comparison of the buffer twice.
  pub flush-after_process :
      (process_buffered rt c).0 ≡ []
      → Option.map (λ m. m.total_diffs) (flush rt (process_buffered rt c).1).0.metadata
        ≡ some (
            length c.diffs
            + length (all_pairs rt c.reference_role c.buffer)
            + length (all_pairs rt c.reference_role c.buffer))
  unfolding flush build_report metadata_of
  flush-after_process e =
      let d = (process_buffered rt c).1 in
      let empty : d.issues ≡ [] = issues-found rt c ∙ e in
      rw (processed-fresh rt d empty) (
        ap some (
          length-diffs-process rt d
          ∙ ap₂ (λ n p. n + length p) (length-diffs-process rt c)
              (ap₂ (all_pairs rt) role-process buffer-process)))
