-- ===== src/Classifier/Repro.antt =====
-- `_build_curl` and `_build_repro` of issue_classifier.py, and the call of `Issue(…)` that the checks
-- share. `n` numbers the fresh identifier and the clock reading that an issue takes.
use integrated_work.Prelude.{ℕ, Option, none, some, [], ◌∷◌, ◌++◌, map}
use integrated_work.Text.{Text, txt, join}
use integrated_work.Models.{
  ScanResponse, DiffResult, Issue, ReproductionSteps, IssueType, SeverityLevel,
}
use integrated_work.Runtime.{Runtime}
use integrated_work.Classifier.Meta.{issue_meta}

header_flag : Text × Text → Text
header_flag (k, v) = txt "-H '" ++ k ++ txt ": " ++ v ++ txt "'"

-- `f"-d '{body}'" if body else ""`
body_flag : Option Text → Text
body_flag none = []
body_flag (some []) = []
body_flag (some (c ∷ s)) = txt "-d '" ++ (c ∷ s) ++ txt "'"

unfoldable pub build_curl : ScanResponse → Text
unfolding header_flag body_flag join
build_curl r =
    txt "curl -X "
    ++ r.method
    ++ txt " "
    ++ join (txt " ") (map header_flag r.request_headers)
    ++ txt " "
    ++ body_flag r.request_body
    ++ txt " '"
    ++ r.url
    ++ txt "'"

unfoldable pub build_repro : DiffResult → Text → ReproductionSteps
unfolding build_curl
build_repro diff description =
    let a = diff.response_a in
    let b = diff.response_b in
    record {
      description = description;
      request_method = diff.method;
      request_url = b.url;
      request_headers = b.request_headers;
      request_body = b.request_body;
      user_a_token = a.token;
      user_b_token = b.token;
      expected_status = 403;
      actual_status = b.status_code;
      curl_command = build_curl b;
    }

module _ (rt : Runtime) (n : ℕ) (diff : DiffResult) where
  -- The call of `Issue(…)` that every check ends in.
  unfoldable pub issue_of : IssueType → SeverityLevel → (name description steps : Text) → Issue
  unfolding build_repro issue_meta
  issue_of type severity name description steps = record {
    issue_id = rt.uuid n;
    issue_type = type;
    severity = severity;
    title = name ++ txt " — " ++ diff.method ++ txt " " ++ diff.endpoint;
    description = description;
    endpoint = diff.endpoint;
    method = diff.method;
    diff = diff;
    repro = some (build_repro diff steps);
    recommendation = (issue_meta type).recommendation;
    cwe = (issue_meta type).cwe;
    owasp = (issue_meta type).owasp;
    false_positive_likelihood = 0;
    discovered_at = rt.utcnow n;
  }
