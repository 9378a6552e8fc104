-- ===== src/Examples/Scored.antt =====
-- A dashboard, two tokens and a chart.
use integrated_work.Auth.Tokens.{blank}
use integrated_work.Api.Charts.{is_failure}
use integrated_work.Api.Charts.{add_response}
use integrated_work.Api.Charts.{point}
use integrated_work.Text.{show_nat}
use integrated_work.Api.Charts.{timestamp}
use integrated_work.Api.Charts.{bucket_time}
use integrated_work.Api.Charts.{add_row}
use integrated_work.Api.Charts.{add_rows}
use integrated_work.Api.Scores.{weaknesses}
use integrated_work.Api.Scores.{token_risk}
use integrated_work.Api.Scores.{count_severity}
use integrated_work.Api.Scores.{count_severities}
use integrated_work.Prelude.{◌≤◌, ◌≡◌, ◌↔◌, refl, Option, none, some, List, [], ◌∷◌, ◌++◌}
use integrated_work.Text.{Text, txt, text_eq}
use integrated_work.Json.{null, str}
use integrated_work.Api.Scores.{
  Counts, count_reports, total_vulns, security_score, risk_score, Token, analyze_jwt_token,
}
use integrated_work.Api.Scores.Order
use integrated_work.Api.Charts.{Response, Row, chart, hour_minute, get_scan_telemetry}

abbrev none_yet : Counts
none_yet = record { critical_count = 0; high_count = 0; medium_count = 0; low_count = 0 }

abbrev reports : List (Option (List Text))
reports = some (txt "HIGH" ∷ txt "low" ∷ []) ∷ none ∷ []

abbrev further : List (Option (List Text))
further = some (txt "CRITICAL" ∷ []) ∷ []

scored : security_score (count_reports (reports ++ further) none_yet) ≡ 74
unfolding security_score count_reports count_severities count_severity
scored = refl

scores-count_reports_example :
    let few = count_reports reports none_yet in
    let all = count_reports (reports ++ further) none_yet in
    (security_score all ≤ security_score few)
    × (risk_score few ≤ risk_score all)
    × (security_score few ≤ 100)
    × ((security_score few ≡ 100) ↔ (total_vulns few ≡ 0))
    × ((risk_score few ≡ 0) ↔ (total_vulns few ≡ 0))
scores-count_reports_example = Order.scores-count_reports reports further none_yet

abbrev unsigned_token : Token
unsigned_token = record { alg = txt "None"; exp = null; lapsed = none; sub = str (txt "ann") }

unsigned_risk : (analyze_jwt_token (some unsigned_token)).1 ≡ 100
unfolding analyze_jwt_token token_risk weaknesses
unsigned_risk = refl

abbrev slow : Response
slow = record {
  created_at = some 3725000000;
  latency_ms = some 1500;
  error_message = none;
  status_code = some 500;
}

abbrev rows : List Row
rows =
    record { task_created_at = some 3720000000; response = some slow }
    ∷ record { task_created_at = some 3700000000; response = none }
    ∷ []

charted :
    get_scan_telemetry 0 rows
    ≡ record { name = txt "01:02"; requests = 1; latency = 150; failures = 1 }
      ∷ record { name = txt "01:01"; requests = 0; latency = 0; failures = 0 }
      ∷ []
unfolding get_scan_telemetry chart add_rows add_row text_eq hour_minute bucket_time timestamp
    show_nat point add_response is_failure blank
charted = refl
