-- ===== src/Models.antt =====
-- models.py: the records and enumerations of the diff and reporting pipeline. `None` of a JSON body
-- is `null`. Similarities are in ten-thousandths; latencies and times are in microseconds, durations in hundredths of
-- a second.
use integrated_work.Prelude.{ℕ, ◌-◌, Bool, Option, List, leb, if◌then◌else◌}
use integrated_work.Text.{Text}
use integrated_work.Dict.{Dict}
use integrated_work.Json.{Value}

-- `negsuc n` is -(n + 1).
pub data ℤ : Type 0 where
  pos : ℕ → ℤ
  negsuc : ℕ → ℤ

-- a - b, as an integer.
abbrev pub sub_ℕ : ℕ → ℕ → ℤ
sub_ℕ a b = if leb b a then pos (a - b) else negsuc (b - a - 1)

pub data IssueType : Type 0 where
  bola bfla tenant_leak jwt_bypass priv_escalation info_disclosure : IssueType

pub data SeverityLevel : Type 0 where
  critical high medium low info : SeverityLevel

-- SEVERITY_SCORE
unfoldable pub severity_score : SeverityLevel → ℕ
severity_score critical = 9
severity_score high = 7
severity_score medium = 5
severity_score low = 3
severity_score info = 1

pub record ScanResponse : Type 0 where
  pub endpoint : Text
  pub method : Text
  pub url : Text
  pub status_code : ℕ
  pub headers : Dict Text
  pub body : Option Text
  pub body_json : Value
  pub user_id : Option Text
  pub role : Option Text
  pub tenant_id : Option Text
  pub token : Option Text
  pub request_headers : Dict Text
  pub request_body : Option Text
  pub latency_ms : Option ℕ
  pub timestamp : ℕ

-- The value {"a": …, "b": …} of `value_changes`.
pub record Change : Type 0 where
  pub a : Value
  pub b : Value

pub record DiffResult : Type 0 where
  pub endpoint : Text
  pub method : Text
  pub response_a : ScanResponse
  pub response_b : ScanResponse
  pub status_delta : ℤ
  pub body_similarity : ℕ
  pub leaked_fields : List Text
  pub added_fields : List Text
  pub removed_fields : List Text
  pub value_changes : Dict Change
  pub is_anomaly : Bool
  pub anomaly_reason : Text
  pub foreign_ids_found : List Text

pub record ReproductionSteps : Type 0 where
  pub description : Text
  pub request_method : Text
  pub request_url : Text
  pub request_headers : Dict Text
  pub request_body : Option Text
  pub user_a_token : Option Text
  pub user_b_token : Option Text
  pub expected_status : ℕ
  pub actual_status : ℕ
  pub curl_command : Text

pub record Issue : Type 0 where
  pub issue_id : Text
  pub issue_type : IssueType
  pub severity : SeverityLevel
  pub title : Text
  pub description : Text
  pub endpoint : Text
  pub method : Text
  pub diff : DiffResult
  pub repro : Option ReproductionSteps
  pub recommendation : Text
  pub cwe : Text
  pub owasp : Text
  pub false_positive_likelihood : ℕ
  pub discovered_at : ℕ

pub record ScanSummary : Type 0 where
  pub total_endpoints : ℕ
  pub total_requests : ℕ
  pub total_issues : ℕ
  pub critical_count : ℕ
  pub high_count : ℕ
  pub medium_count : ℕ
  pub low_count : ℕ
  pub info_count : ℕ
  pub duration_seconds : ℤ
  pub scan_start : ℕ
  pub scan_end : ℕ

-- `M` is the type of the metadata, `none` for {}.
pub record ScanReport (M : Type 0) : Type 0 where
  pub report_id : Text
  pub target_url : Text
  pub scan_name : Text
  pub summary : ScanSummary
  pub issues : List Issue
  pub metadata : Option M
  pub created_at : ℕ
