-- ===== src/Report/Counts.antt =====
-- The counts of a report's summary.
use native.Mathlib.Nat.{zero-add}
use integrated_work.Prelude.{
  ◌∙◌, ℕ, ◌+◌, ◌≡◌, refl, List, [], ◌∷◌, Option, keep, arith, length, ◌==◌, if◌then◌else◌,
}
use integrated_work.Text.{Text}
use integrated_work.Models.{SeverityLevel, critical, high, medium, low, info, severity_score, Issue}
use integrated_work.Runtime.{Runtime}
use integrated_work.Report.{Tally, no_issues, count_one, count_issues, score, build_report}

abbrev pub field_of : SeverityLevel → Tally → ℕ
field_of critical c = c.critical_issues
field_of high c = c.high_issues
field_of medium c = c.medium_issues
field_of low c = c.low_issues
field_of info c = c.info_issues

-- The issues of a severity.
abbrev pub of_severity : SeverityLevel → List Issue → List Issue
of_severity s is = keep (λ i. score i == severity_score s) is

abbrev total : Tally → ℕ
total c = c.critical_issues + c.high_issues + c.medium_issues + c.low_issues + c.info_issues

field-count_one :
    (s t : SeverityLevel) (c : Tally)
    → field_of s (count_one t c)
      ≡ field_of s c + (if severity_score t == severity_score s then 1 else 0)
unfolding count_one severity_score
field-count_one critical t c = ground arith
field-count_one high t c = ground arith
field-count_one medium t c = ground arith
field-count_one low t c = ground arith
field-count_one info t c = ground arith

field-count_issues :
    (s : SeverityLevel) (is : List Issue) (c : Tally)
    → field_of s (count_issues is c) ≡ field_of s c + length (of_severity s is)
unfolding count_issues keep
field-count_issues s [] c = omega arith
field-count_issues s (i ∷ is) c =
    ground (arith, field-count_issues s is (count_one i.severity c), field-count_one s i.severity c)

total-count_issues : (is : List Issue) (c : Tally) → total (count_issues is c) ≡ total c + length is
unfolding count_issues count_one
total-count_issues [] c = omega arith
total-count_issues (i ∷ is) c = ground (arith, total-count_issues is (count_one i.severity c))

-- A report's counts are the numbers of the given issues of each severity, and add up to their number.
pub summary-build_report :
    {M : Type 0} (rt : Runtime) (n : ℕ) (is : List Issue) (url name : Text) (endpoints requests : ℕ)
    (start end : Option ℕ) (metadata : Option M)
    → let s = (build_report rt n is url name endpoints requests start end metadata).summary in
      (s.critical_count ≡ length (of_severity critical is))
      × (s.high_count ≡ length (of_severity high is))
      × (s.medium_count ≡ length (of_severity medium is))
      × (s.low_count ≡ length (of_severity low is))
      × (s.info_count ≡ length (of_severity info is))
      × (s.critical_count + s.high_count + s.medium_count + s.low_count + s.info_count
          ≡ s.total_issues)
      × (s.total_issues ≡ length is)
unfolding build_report
summary-build_report rt n is url name endpoints requests start end metadata = (
  field-count_issues critical is no_issues ∙ zero-add _,
  field-count_issues high is no_issues ∙ zero-add _,
  field-count_issues medium is no_issues ∙ zero-add _,
  field-count_issues low is no_issues ∙ zero-add _,
  field-count_issues info is no_issues ∙ zero-add _,
  omega (arith, total-count_issues is no_issues),
  refl,
)
