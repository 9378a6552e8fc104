-- ===== src/Analysis/Unknown.antt =====
-- A report where no token names its user.
use integrated_work.Prelude.{
  ℕ, ◌≡◌, refl, ap, sym, ◌∙◌, Option, none, some, List, [], ◌∷◌, extend_all, All, All-append, zero,
}
use integrated_work.Text.{Text, txt}
use integrated_work.Models.{ScanResponse}
use integrated_work.Runtime.{Runtime}
use integrated_work.DiffEngine.Compare.{batch_compare}
use integrated_work.DiffEngine.Compare.Anomaly.{same_user-not-anomaly}
use integrated_work.Classifier.Classify.{classify_all}
use integrated_work.Report.{sorted_issues}
use integrated_work.Collector.{Collector, on_result, on_results_batch}
use integrated_work.Collector.Batch.{all_pairs}
use integrated_work.Collector.Flush.{flush-fresh}
use integrated_work.Collector.Members.{Both, all_pairs-Both, on_results_batch-AllBuffered}
use integrated_work.Analysis.{
  TokenClaims, Parsers, SavedResponse, TaskRow, without_bearer, authorization, text_or,
  read_identity, identity_of, with_status, answered_by, to_response, answered, report_response, fed,
  report_collector, generate_report,
}

-- The user that stands in for one that is not named.
abbrev IsUnknown : ScanResponse → Type 0
IsUnknown r = r.user_id ≡ some (txt "unknown")

batch_compare-Same :
    (rt : Runtime) (pairs : List (ScanResponse × ScanResponse)) (threshold : ℕ)
    → All (Both IsUnknown) pairs
    → batch_compare rt pairs threshold ≡ []
unfolding batch_compare
batch_compare-Same rt [] threshold h = refl
batch_compare-Same rt ((a, b) ∷ pairs) threshold h =
    rw (same_user-not-anomaly rt a b threshold (h.0.0 ∙ sym h.0.1))
      (batch_compare-Same rt pairs threshold h.1)

with_status-All :
    (P : ScanResponse → Type 0) (make : (status : ℕ) → TaskRow → SavedResponse → ScanResponse)
    (task : TaskRow) (resp : SavedResponse) (o : Option ℕ)
    → ((status : ℕ) (r : SavedResponse) → P (make status task r))
    → All P (with_status make task resp o)
unfolding with_status
with_status-All P make task resp none h = tt
with_status-All P make task resp (some status) h = (h status resp, tt)

answered-All :
    (P : ScanResponse → Type 0) (make : (status : ℕ) → TaskRow → SavedResponse → ScanResponse)
    (task : TaskRow)
    → ((status : ℕ) (r : SavedResponse) → P (make status task r))
    → All P (answered make task)
unfolding answered_by
answered-All P make task h = by_response task.response
  where
    by_response : (o : Option SavedResponse) → All P (answered_by make task o)
    by_response none = tt
    by_response (some resp) = with_status-All P make task resp resp.status_code h

issues-on_results_batch :
    (rs : List ScanResponse) (c : Collector) → (on_results_batch rs c).issues ≡ c.issues
unfolding on_results_batch on_result
issues-on_results_batch [] c = refl
issues-on_results_batch (r ∷ rs) c = issues-on_results_batch rs (on_result r c)

module _ (parsers : Parsers) where
  -- The token of a task, if it has one that can be decoded, has no claim `user_id`.
  abbrev pub NamesNoUser : TaskRow → Type 0
  NamesNoUser task =
      (header : Text) (c : TokenClaims)
      → authorization task.headers ≡ some header
      → parsers.claims (without_bearer zero header) ≡ some c
      → c.user_id ≡ none

  unknown_claims :
      (role claim_role token : Text) (o : Option TokenClaims)
      → ((c : TokenClaims) → o ≡ some c → c.user_id ≡ none)
      → (identity_of claim_role (txt "unknown") role (txt "unknown") token o).user_id
        ≡ txt "unknown"
  unfolding identity_of text_or
  unknown_claims role claim_role token none h = refl
  unknown_claims role claim_role token (some c) h =
      ap (λ (u : Option Text). text_or (txt "unknown") u) (h c refl)

  unknown_user :
      (role claim_role : Text) (o : Option Text)
      → ((header : Text) (c : TokenClaims)
          → o ≡ some header
          → parsers.claims (without_bearer zero header) ≡ some c
          → c.user_id ≡ none)
      → (read_identity parsers claim_role (txt "unknown") role (txt "unknown") o).user_id
        ≡ txt "unknown"
  unfolding read_identity
  unknown_user role claim_role none h = refl
  unknown_user role claim_role (some header) h =
      let token = without_bearer zero header in
      unknown_claims role claim_role token (parsers.claims token) (λ c e. h header c refl e)

  answered-IsUnknown :
      (now : ℕ) (task : TaskRow)
      → NamesNoUser task
      → All IsUnknown (answered (report_response parsers now) task)
  unfolding report_response to_response
  answered-IsUnknown now task h =
      answered-All IsUnknown (report_response parsers now) task λ status resp.
        ap some (unknown_user (txt "user") (txt "user") (authorization task.headers) h)

  fed-IsUnknown :
      (now : ℕ) (tasks : List TaskRow)
      → All NamesNoUser tasks
      → All IsUnknown (fed parsers now tasks)
  unfolding fed extend_all
  fed-IsUnknown now [] h = tt
  fed-IsUnknown now (task ∷ tasks) h =
      All-append IsUnknown (answered (report_response parsers now) task) (fed parsers now tasks)
        (answered-IsUnknown now task h.0) (fed-IsUnknown now tasks h.1)

  -- When no token of the scan's tasks has a claim `user_id` (a token of the service's own login has `sub`
  -- in its place), the report of the scan has no issue, whatever was answered to whom.
  pub issues-generate_report :
      (rt : Runtime) (target name : Text) (now : ℕ) (tasks : List TaskRow)
      → All NamesNoUser tasks
      → (generate_report parsers rt target name now tasks).issues ≡ []
  unfolding generate_report report_collector sorted_issues classify_all
  issues-generate_report rt target name now tasks h =
      let c = on_results_batch (fed parsers now tasks) (report_collector parsers target name now) in
      let same =
        batch_compare-Same rt (all_pairs rt c.reference_role c.buffer) c.similarity_threshold (
          all_pairs-Both IsUnknown rt c.reference_role c.buffer (
            on_results_batch-AllBuffered IsUnknown (fed parsers now tasks)
              (report_collector parsers target name now) (fed-IsUnknown now tasks h) tt)) in
      (flush-fresh rt c (
        issues-on_results_batch (fed parsers now tasks)
          (report_collector parsers target name now))).0
      ∙ ap (λ ds. sorted_issues (classify_all rt c.drawn ds).0) same
