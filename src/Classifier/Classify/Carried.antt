-- ===== src/Classifier/Classify/Carried.antt =====
-- What every issue of `classify_all` carries from its comparison.
use integrated_work.Prelude.{◌≡◌, ◌≤◌, Option, none, some, List, ◌∷◌}
use integrated_work.Models.{DiffResult, Issue, ReproductionSteps, severity_score}
use integrated_work.Runtime.{Runtime}
use integrated_work.Classifier.Meta.{issue_meta}
use integrated_work.Classifier.Classify.Made.{Made}

-- An issue reports on a comparison: it names its endpoint and method; it has the CWE, the OWASP text and
-- the recommendation of its type, and a severity of at least MEDIUM; and its steps send the second
-- request, with both tokens, and expect 403 where the second response had its status.
pub record Reports (d : DiffResult) (i : Issue) : Type 0 where
  pub on : i.diff ≡ d
  pub endpoint : i.endpoint ≡ d.endpoint
  pub method : i.method ≡ d.method
  pub cwe : i.cwe ≡ (issue_meta i.issue_type).cwe
  pub owasp : i.owasp ≡ (issue_meta i.issue_type).owasp
  pub recommendation : i.recommendation ≡ (issue_meta i.issue_type).recommendation
  pub severe : 5 ≤ severity_score i.severity
  pub steps : ReproductionSteps
  pub reproduced : i.repro ≡ some steps
  pub url : steps.request_url ≡ d.response_b.url
  pub user_a : steps.user_a_token ≡ d.response_a.token
  pub user_b : steps.user_b_token ≡ d.response_b.token
  pub expected : steps.expected_status ≡ 403
  pub actual : steps.actual_status ≡ d.response_b.status_code

-- A comparison is one of a list.
pub data IsGiven (d : DiffResult) : List DiffResult → Type 0 where
  here : {e : DiffResult} {ds : List DiffResult} → d ≡ e → IsGiven d (e ∷ ds)
  there : {e : DiffResult} {ds : List DiffResult} → IsGiven d ds → IsGiven d (e ∷ ds)

abbrev pub ReportsIf : DiffResult → Option Issue → Type 0
ReportsIf d none = Unit {0}
ReportsIf d (some i) = Reports d i
