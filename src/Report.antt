-- ===== src/Report.antt =====
-- `build_report` of report_generator.py. `n` numbers the fresh identifier and the clock readings.
pub mod Counts
pub mod Order
use integrated_work.Prelude.{
  ℕ, zero, suc, ◌+◌, ◌-◌, Bool, Option, none, some, List, [], ◌∷◌, length, leb, if◌then◌else◌,
}
use integrated_work.Text.{Text}
use integrated_work.Models.{
  ℤ, pos, negsuc, sub_ℕ, SeverityLevel, critical, high, medium, low, info, severity_score, Issue,
  ScanSummary, ScanReport,
}
use integrated_work.Runtime.{Runtime}
use integrated_work.DiffEngine.Similarity.{round_half_even}

-- The dict `counts`, with a field for each severity.
pub record Tally : Type 0 where
  pub critical_issues : ℕ
  pub high_issues : ℕ
  pub medium_issues : ℕ
  pub low_issues : ℕ
  pub info_issues : ℕ

-- {s: 0 for s in SeverityLevel}
abbrev pub no_issues : Tally
no_issues = record {
  critical_issues = 0;
  high_issues = 0;
  medium_issues = 0;
  low_issues = 0;
  info_issues = 0;
}

-- counts[severity] += 1
unfoldable pub count_one : SeverityLevel → Tally → Tally
count_one critical c = record c { critical_issues = c.critical_issues + 1 }
count_one high c = record c { high_issues = c.high_issues + 1 }
count_one medium c = record c { medium_issues = c.medium_issues + 1 }
count_one low c = record c { low_issues = c.low_issues + 1 }
count_one info c = record c { info_issues = c.info_issues + 1 }

unfoldable pub count_issues : List Issue → Tally → Tally
unfolding count_one
count_issues [] c = c
count_issues (i ∷ issues) c = count_issues issues (count_one i.severity c)

-- SEVERITY_SCORE.get(i.severity, 0)
abbrev pub score : Issue → ℕ
score i = severity_score i.severity

-- sorted(issues, key=…, reverse=True): the greatest score first, and equal ones as they stood.
unfoldable pub insert_issue : Issue → List Issue → List Issue
insert_issue i [] = i ∷ []
insert_issue i (j ∷ js) = if leb (score j) (score i) then i ∷ j ∷ js else j ∷ insert_issue i js

unfoldable pub sorted_issues : List Issue → List Issue
unfolding insert_issue
sorted_issues [] = []
sorted_issues (i ∷ issues) = insert_issue i (sorted_issues issues)

-- round((scan_end - scan_start).total_seconds(), 2)
round_duration : ℤ → ℤ
unfolding round_half_even
round_duration (pos us) = pos (round_half_even us 10000)
round_duration (negsuc us) = sub_ℕ 0 (round_half_even (suc us) 10000)

-- x or y of an optional time; a datetime is never false.
or_time : Option ℕ → ℕ → ℕ
or_time none t = t
or_time (some s) t = s

module _ (rt : Runtime) where
  unfoldable pub build_report :
      {M : Type 0}
      → ℕ
      → List Issue
      → (target_url scan_name : Text) → (total_endpoints total_requests : ℕ)
      → (scan_start scan_end : Option ℕ) → Option M
      → ScanReport M
  unfolding count_issues sorted_issues round_duration or_time
  build_report n issues target_url scan_name total_endpoints total_requests scan_start scan_end
        metadata =
      let end : ℕ = or_time scan_end (rt.utcnow n) in
      let start : ℕ = or_time scan_start end in
      let counts : Tally = count_issues issues no_issues in
      record {
        report_id = rt.uuid n;
        target_url = target_url;
        scan_name = scan_name;
        summary = record {
          total_endpoints = total_endpoints;
          total_requests = total_requests;
          total_issues = length issues;
          critical_count = counts.critical_issues;
          high_count = counts.high_issues;
          medium_count = counts.medium_issues;
          low_count = counts.low_issues;
          info_count = counts.info_issues;
          duration_seconds = round_duration (sub_ℕ end start);
          scan_start = start;
          scan_end = end;
        };
        issues = sorted_issues issues;
        metadata = metadata;
        created_at = rt.utcnow (suc n);
      }
