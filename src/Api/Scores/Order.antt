-- ===== src/Api/Scores/Order.antt =====
-- How the scores order what they score.
use integrated_work.Prelude.{
  ◌≤◌, ◌≡◌, ◌↔◌, refl, not, ◌||◌, Option, none, some, List, [], ◌∷◌, ◌++◌, any, if◌then◌else◌,
  arith,
}
use integrated_work.Text.{Text, txt, text_eq, lower}
use integrated_work.Json.{truthy}
use integrated_work.Api.Scores.{
  Counts, count_severity, count_severities, count_reports, total_vulns, security_score, risk_score,
  Token, algorithm_check, lapsed_check, expiration_check, subject_check, weaknesses, is_critical,
  is_high, is_medium, token_risk, analyze_jwt_token,
}

-- No count of c is above that of d.
abbrev pub AtMost : Counts → Counts → Type 0
AtMost c d =
    (c.critical_count ≤ d.critical_count)
    × (c.high_count ≤ d.high_count)
    × (c.medium_count ≤ d.medium_count)
    × (c.low_count ≤ d.low_count)

count_severity-AtMost : (s : Text) (c : Counts) → AtMost c (count_severity s c)
unfolding count_severity
count_severity-AtMost s c = ground arith

AtMost-trans : (b c d : Counts) → AtMost b c → AtMost c d → AtMost b d
AtMost-trans b c d h g = ground arith

count_severities-AtMost : (ss : List Text) (c : Counts) → AtMost c (count_severities ss c)
unfolding count_severities
count_severities-AtMost [] c = ground arith
count_severities-AtMost (s ∷ ss) c =
    AtMost-trans c (count_severity s c) (count_severities ss (count_severity s c))
      (count_severity-AtMost s c) (count_severities-AtMost ss (count_severity s c))

count_reports-AtMost : (rs : List (Option (List Text))) (c : Counts) → AtMost c (count_reports rs c)
unfolding count_reports
count_reports-AtMost [] c = ground arith
count_reports-AtMost (none ∷ rs) c = count_reports-AtMost rs c
count_reports-AtMost (some ss ∷ rs) c =
    AtMost-trans c (count_severities ss c) (count_reports rs (count_severities ss c))
      (count_severities-AtMost ss c) (count_reports-AtMost rs (count_severities ss c))

count_reports-append :
    (rs more : List (Option (List Text))) (c : Counts)
    → count_reports (rs ++ more) c ≡ count_reports more (count_reports rs c)
unfolding count_reports
count_reports-append [] more c = refl
count_reports-append (none ∷ rs) more c = count_reports-append rs more c
count_reports-append (some ss ∷ rs) more c = count_reports-append rs more (count_severities ss c)

scores-AtMost :
    (c d : Counts)
    → AtMost c d
    → (security_score d ≤ security_score c) × (risk_score c ≤ risk_score d)
unfolding security_score risk_score
scores-AtMost c d h = ground arith

-- The reports of further scans never raise the security score of the dashboard and never lower its risk
-- score. The security score is at most 100, it is 100 exactly when no vulnerability is counted, and then
-- alone the risk score is 0.
pub scores-count_reports :
    (rs more : List (Option (List Text))) (c : Counts)
    → let few = count_reports rs c in
      let all = count_reports (rs ++ more) c in
      (security_score all ≤ security_score few)
      × (risk_score few ≤ risk_score all)
      × (security_score few ≤ 100)
      × ((security_score few ≡ 100) ↔ (total_vulns few ≡ 0))
      × ((risk_score few ≡ 0) ↔ (total_vulns few ≡ 0))
unfolding total_vulns security_score risk_score
scores-count_reports rs more c =
    let few = count_reports rs c in
    let (lower_score, higher_risk) =
      scores-AtMost few (count_reports more few) (count_reports-AtMost more few) in
    (
      rw (count_reports-append rs more c) lower_score,
      rw (count_reports-append rs more c) higher_risk,
      omega arith,
      ground arith,
      ground arith,
    )

-- The risk of a token that can be read, from its algorithm and its claims alone: 100 for the algorithm
-- "none" in any case, else 70 without an expiry, else 40 for HS256 or without a subject, else 10, whether
-- it has lapsed or not.
pub risk-analyze_jwt_token :
    (t : Token)
    → (analyze_jwt_token (some t)).1 ≡ (
        if text_eq (lower t.alg) (txt "none")
        then 100
        else if not (truthy t.exp)
        then 70
        else if text_eq (lower t.alg) (txt "hs256") || not (truthy t.sub)
        then 40
        else 10)
unfolding analyze_jwt_token weaknesses token_risk algorithm_check expiration_check lapsed_check
    subject_check any is_critical is_high is_medium
risk-analyze_jwt_token t = ground arith
