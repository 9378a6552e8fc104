-- ===== src/Examples/Issues.antt =====
-- The classifier and the reports on the sample comparisons.
use integrated_work.Prelude.{
  ℕ, ◌≡◌, refl, true, none, some, List, [], ◌∷◌, map, keep, arith, nonempty, if◌then◌else◌,
}
use mathlib.Core.List.{Perm}
use integrated_work.Text.{txt, contains}
use integrated_work.Dict.{keys, has}
use integrated_work.DiffEngine.Fields.{field_diff}
use integrated_work.Models.{DiffResult, Issue, bola, tenant_leak, priv_escalation}
use integrated_work.DiffEngine.Compare.{judge, foreign_ids, given, compare_responses}
use integrated_work.DiffEngine.Similarity.{body_similarity}
use integrated_work.DiffEngine.Ids.{extract_ids}
use integrated_work.Classifier.Repro.{issue_of}
use integrated_work.Classifier.Checks.{
  check_bola, check_bfla, check_tenant_leak, check_jwt_bypass, check_privilege_escalation,
  check_info_disclosure,
}
use integrated_work.Classifier.Classify.{run_checker, run_checkers, classify_diff, classify_all}
use integrated_work.Classifier.Classify.Compared
use integrated_work.DiffEngine.Compare.Anomaly.{suspicious}
use integrated_work.Classifier.Classify.Carried
use integrated_work.Classifier.Classify.Complete
use integrated_work.Report.{build_report}
use integrated_work.Report.Order as Sorting
use integrated_work.Examples.Samples.{sample, owner, intruder, refused}

-- Another user of another tenant was shown the owner's record.
abbrev stolen : DiffResult
stolen = compare_responses sample owner intruder 6500

abbrev denied : DiffResult
denied = compare_responses sample refused intruder 6500

abbrev found : List Issue
found = (classify_all sample 0 (stolen ∷ denied ∷ [])).0

types_stolen :
    map (λ (i : Issue). i.issue_type) (classify_diff sample 0 stolen).0
    ≡ tenant_leak ∷ bola ∷ priv_escalation ∷ []
unfolding classify_diff compare_responses judge body_similarity run_checkers run_checker
    check_jwt_bypass check_tenant_leak foreign_ids extract_ids contains keep issue_of check_bola
    check_bfla check_privilege_escalation check_info_disclosure field_diff keys has
types_stolen = refl

nonempty-classify_diff_example : nonempty (classify_diff sample 0 stolen).0 ≡ true
unfolding compare_responses judge body_similarity given
nonempty-classify_diff_example =
    Complete.nonempty-classify_diff sample owner intruder 6500 (omega arith) 0 refl refl

types-compared_example : map (λ (i : Issue). i.issue_type) (classify_diff sample 0 stolen).0 ≡ (
    if suspicious owner intruder
      (body_similarity sample owner.body intruder.body)
      (foreign_ids sample owner intruder)
      6500
    then Compared.found_types sample owner intruder
    else [])
types-compared_example = Compared.types-compared sample owner intruder 6500 0

issues-build_report_example :
    let sorted =
      (build_report sample {M = ℕ} 9 found
        (txt "http://api")
        (txt "scan")
        1
        3
        (some 5)
        (some 25)
        none).issues in
    Perm sorted found
    × Sorting.IsDescending sorted
    × ((s : ℕ) → Sorting.of_score s sorted ≡ Sorting.of_score s found)
issues-build_report_example =
    Sorting.issues-build_report sample 9 found (txt "http://api") (txt "scan") 1 3 (some 5)
      (some 25) none
