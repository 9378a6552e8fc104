-- ===== src/Classifier/Classify/Made.antt =====
-- Every check returns nothing or an issue that `issue_of` made, with a severity of at least MEDIUM.
use integrated_work.Prelude.{ℕ, ◌≤◌, Bool, true, false, Option, none, some, arith, if◌then◌else◌}
use integrated_work.Text.{Text}
use integrated_work.Models.{
  DiffResult, Issue, IssueType, bola, bfla, tenant_leak, jwt_bypass, priv_escalation,
  info_disclosure, SeverityLevel, severity_score,
}
use integrated_work.Runtime.{Runtime}
use integrated_work.Classifier.Severity.Order.{score_bola_ge, score_bfla_ge}
use integrated_work.Classifier.Repro.{issue_of}
use integrated_work.Classifier.Checks.{
  check_bola, check_bfla, check_tenant_leak, check_jwt_bypass, check_privilege_escalation,
  check_info_disclosure,
}
use integrated_work.Classifier.Classify.{run_checker}

pub data Made (rt : Runtime) (n : ℕ) (d : DiffResult) : Option Issue → Type 0 where
  absent : Made rt n d none
  found :
      (t : IssueType) (s : SeverityLevel) (name description steps : Text)
      → 5 ≤ severity_score s
      → Made rt n d (some (issue_of rt n d t s name description steps))

module _ {rt : Runtime} {n : ℕ} {d : DiffResult} where
  when : {o : Option Issue} (c : Bool) → Made rt n d o → Made rt n d (if c then o else none)
  when true m = m
  when false m = absent

  unless : {o : Option Issue} (c : Bool) → Made rt n d o → Made rt n d (if c then none else o)
  unless true m = absent
  unless false m = m

pub run_checker-Made :
    (rt : Runtime) (t : IssueType) (n : ℕ) (d : DiffResult) → Made rt n d (run_checker rt t n d)
unfolding run_checker check_bola check_bfla check_tenant_leak check_jwt_bypass
    check_privilege_escalation check_info_disclosure severity_score
run_checker-Made rt jwt_bypass n d = when _ (found _ _ _ _ _ (omega arith))
run_checker-Made rt tenant_leak n d = unless _ (unless _ (found _ _ _ _ _ (omega arith)))
run_checker-Made rt bola n d = when _ (found _ _ _ _ _ (score_bola_ge d))
run_checker-Made rt bfla n d = when _ (found _ _ _ _ _ (score_bfla_ge d))
run_checker-Made rt priv_escalation n d = when _ (found _ _ _ _ _ (omega arith))
run_checker-Made rt info_disclosure n d = when _ (found _ _ _ _ _ (omega arith))
