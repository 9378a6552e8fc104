-- ===== src/Collector.antt =====
-- ScanResultCollector of result_collector.py. Methods take and return the collector. The callback is
-- seen by the issues that it is called with; that it may raise changes nothing, since the call is
-- caught. `drawn` numbers the fresh identifiers and the clock readings.
pub mod Pairs
pub mod Batch
pub mod Flush
pub mod Invariant
pub mod Members
use integrated_work.Prelude.{
  ℕ, zero, suc, ◌+◌, Bool, true, false, not, ◌&&◌, ◌||◌, Option, none, some, List, [], ◌∷◌, ◌++◌,
  map, keep, any, extend_all, length, nonempty, ltb, if◌then◌else◌,
}
use integrated_work.Text.{Text, txt, lower, text_eq}
use integrated_work.Dict.{Dict, get, put}
use integrated_work.Models.{ScanResponse, DiffResult, Issue, ScanReport}
use integrated_work.Runtime.{Runtime}
use integrated_work.DiffEngine.Compare.{opt_eq, compare_responses}
use integrated_work.Classifier.Classify.{classify_diff}
use integrated_work.Report.{build_report}

pub record Collector : Type 0 where
  pub target_url : Text
  pub scan_name : Text
  pub similarity_threshold : ℕ
  pub reference_role : Text
  pub has_callback : Bool
  pub buffer : Dict (List ScanResponse)
  pub diffs : List DiffResult
  pub issues : List Issue
  pub request_count : ℕ
  pub scan_start : ℕ
  pub calls : List Issue
  pub drawn : ℕ

-- f"{response.method}::{response.endpoint}"
unfoldable pub buffer_key : ScanResponse → Text
buffer_key r = r.method ++ txt "::" ++ r.endpoint

-- self._buffer[key], of a defaultdict(list)
unfoldable pub buffered : Text → Dict (List ScanResponse) → List ScanResponse
unfolding get
buffered key buffer = elim (get key buffer) [ none ↦ [] | some rs ↦ rs ]

unfoldable pub on_result : ScanResponse → Collector → Collector
unfolding buffered buffer_key put
on_result r c =
    let key = buffer_key r in
    record c {
      buffer = put key (buffered key c.buffer ++ r ∷ []) c.buffer;
      request_count = c.request_count + 1;
    }

unfoldable pub on_results_batch : List ScanResponse → Collector → Collector
on_results_batch [] c = c
on_results_batch (r ∷ rs) c = on_results_batch rs (on_result r c)

-- (r.role or "").lower() == self.reference_role.lower()
unfoldable pub is_reference : Text → ScanResponse → Bool
unfolding lower text_eq
is_reference role r = text_eq (lower (elim r.role [ none ↦ [] | some s ↦ s ])) (lower role)

-- ref.user_id != other.user_id or ref.role != other.role
unfoldable pub is_pair : ScanResponse → ScanResponse → Bool
unfolding opt_eq
is_pair ref other = not (opt_eq ref.user_id other.user_id) || not (opt_eq ref.role other.role)

-- The two loops over references and challengers.
unfoldable pub pairs_of : List ScanResponse → List ScanResponse → List (ScanResponse × ScanResponse)
unfolding extend_all keep is_pair
pairs_of refs others = extend_all (λ ref. map (λ o. (ref, o)) (keep (is_pair ref) others)) refs

-- refs = [responses[0]]; others = responses[1:]
unfoldable pub first_pairs : List ScanResponse → List (ScanResponse × ScanResponse)
unfolding pairs_of
first_pairs [] = []
first_pairs (r ∷ []) = []
first_pairs (r ∷ s ∷ rs) = pairs_of (r ∷ []) (s ∷ rs)

-- What one pass over the pairs changes.
pub record Progress : Type 0 where
  pub diffs : List DiffResult
  pub found : List Issue
  pub calls : List Issue
  pub drawn : ℕ

module _ (rt : Runtime) where
  unfoldable pub build_pairs : Text → List ScanResponse → List (ScanResponse × ScanResponse)
  unfolding is_reference pairs_of first_pairs keep any
  build_pairs role responses =
      let refs = keep (is_reference role) responses in
      let others = keep (λ r. not (any (rt.same r) refs)) responses in
      if nonempty refs then pairs_of refs others else first_pairs responses

  module _ (threshold : ℕ) (has_callback : Bool) where
    unfoldable pub process_pair : ScanResponse × ScanResponse → Progress → Progress
    process_pair (ref, challenger) p =
        let diff = compare_responses rt ref challenger threshold in
        let (issues, n) = classify_diff rt p.drawn diff in
        if diff.is_anomaly
        then record {
          diffs = p.diffs ++ diff ∷ [];
          found = p.found ++ issues;
          calls = if has_callback then p.calls ++ issues else p.calls;
          drawn = n;
        }
        else record p { diffs = p.diffs ++ diff ∷ [] }

    unfoldable pub process_pairs : List (ScanResponse × ScanResponse) → Progress → Progress
    process_pairs [] p = p
    process_pairs (x ∷ xs) p = process_pairs xs (process_pair x p)

    -- for endpoint_key, responses in self._buffer.items(): …
    unfoldable pub process_entries : Text → Dict (List ScanResponse) → Progress → Progress
    process_entries role [] p = p
    process_entries role ((key, responses) ∷ rest) p =
        process_entries role rest
          (if ltb (length responses) 2 then p else process_pairs (build_pairs role responses) p)

  unfoldable pub process_buffered : Collector → List Issue × Collector
  process_buffered c =
      let start : Progress = record {
        diffs = c.diffs;
        found = [];
        calls = c.calls;
        drawn = c.drawn;
      } in
      let p =
        process_entries c.similarity_threshold c.has_callback c.reference_role c.buffer start in
      (p.found, record c { diffs = p.diffs; issues = p.found; calls = p.calls; drawn = p.drawn })

-- The dict `metadata` of a report, and `stats`.
pub record Metadata : Type 0 where
  pub similarity_threshold : ℕ
  pub reference_role : Text
  pub total_diffs : ℕ
  pub anomaly_diffs : ℕ

unfoldable pub metadata_of : Collector → Metadata
metadata_of c = record {
  similarity_threshold = c.similarity_threshold;
  reference_role = c.reference_role;
  total_diffs = length c.diffs;
  anomaly_diffs = length (keep (λ d. d.is_anomaly) c.diffs);
}

pub record Stats : Type 0 where
  pub endpoints_buffered : ℕ
  pub total_requests : ℕ
  pub diffs_run : ℕ
  pub anomalies_detected : ℕ
  pub issues_found : ℕ

unfoldable pub stats : Collector → Stats
stats c = record {
  endpoints_buffered = length c.buffer;
  total_requests = c.request_count;
  diffs_run = length c.diffs;
  anomalies_detected = length (keep (λ d. d.is_anomaly) c.diffs);
  issues_found = length c.issues;
}

module _ (rt : Runtime) where
  -- if not self._issues: self.process_buffered()
  unfoldable pub processed : Collector → Collector
  unfolding process_buffered
  processed c = if nonempty c.issues then c else (process_buffered rt c).1

  -- `scan_end` is one reading of the clock; the report takes one more identifier and reading.
  unfoldable pub flush : Collector → ScanReport Metadata × Collector
  unfolding processed metadata_of
  flush c =
      let d = processed c in
      let scan_end = rt.utcnow d.drawn in
      (
        build_report rt (suc d.drawn) d.issues d.target_url d.scan_name (length d.buffer)
            d.request_count (some d.scan_start) (some scan_end) (some (metadata_of d)),
        record d { drawn = d.drawn + 3 },
      )

  unfoldable pub reset : Collector → Collector
  reset c = record c {
    buffer = [];
    diffs = [];
    issues = [];
    request_count = 0;
    scan_start = rt.utcnow c.drawn;
    drawn = c.drawn + 1;
  }
