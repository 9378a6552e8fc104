-- ===== src/Classifier/Classify.antt =====
-- `classify_diff` and `classify_all` of issue_classifier.py. The state is the number of issues made
-- so far, by which the next fresh identifier is drawn.
pub mod Types
mod Made
pub mod Carried
pub mod Compared
pub mod Complete
use integrated_work.Prelude.{ℕ, suc, Bool, Option, none, some, List, [], ◌∷◌, ◌++◌, if◌then◌else◌}
use integrated_work.Models.{
  DiffResult, Issue, IssueType, bola, bfla, tenant_leak, jwt_bypass, priv_escalation,
  info_disclosure,
}
use integrated_work.Runtime.{Runtime}
use integrated_work.Classifier.Checks.{
  check_bola, check_bfla, check_tenant_leak, check_jwt_bypass, check_privilege_escalation,
  check_info_disclosure,
}

-- The list `checkers`, in its order.
abbrev pub checkers : List IssueType
checkers = jwt_bypass ∷ tenant_leak ∷ bola ∷ bfla ∷ priv_escalation ∷ info_disclosure ∷ []

-- if result: issues.append(result), before the issues of the later checkers.
unfoldable pub append_found : Option Issue → List Issue × ℕ → List Issue × ℕ
append_found none (issues, n) = (issues, n)
append_found (some i) (issues, n) = (i ∷ issues, n)

-- The number after a check.
unfoldable pub drawn : ℕ → Option Issue → ℕ
drawn n none = n
drawn n (some i) = suc n

module _ (rt : Runtime) where
  unfoldable pub run_checker : IssueType → ℕ → DiffResult → Option Issue
  run_checker jwt_bypass n diff = check_jwt_bypass rt n diff
  run_checker tenant_leak n diff = check_tenant_leak rt n diff
  run_checker bola n diff = check_bola rt n diff
  run_checker bfla n diff = check_bfla rt n diff
  run_checker priv_escalation n diff = check_privilege_escalation rt n diff
  run_checker info_disclosure n diff = check_info_disclosure rt n diff

  -- for checker in checkers: …
  unfoldable pub run_checkers : List IssueType → ℕ → DiffResult → List Issue × ℕ
  unfolding append_found drawn
  run_checkers [] n diff = ([], n)
  run_checkers (c ∷ cs) n diff =
      let result = run_checker c n diff in
      append_found result (run_checkers cs (drawn n result) diff)

  unfoldable pub classify_diff : ℕ → DiffResult → List Issue × ℕ
  classify_diff n diff = if diff.is_anomaly then run_checkers checkers n diff else ([], n)

  -- all_issues.extend(classify_diff(diff))
  unfoldable pub classify_all : ℕ → List DiffResult → List Issue × ℕ
  classify_all n [] = ([], n)
  classify_all n (diff ∷ diffs) =
      let (found, m) = classify_diff n diff in
      let (rest, k) = classify_all m diffs in (found ++ rest, k)
