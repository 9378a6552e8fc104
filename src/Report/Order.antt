-- ===== src/Report/Order.antt =====
-- The issues of a report: those given, the most severe first, equal ones in the order given.
use mathlib.Core.List.Perm
use mathlib.Core.List.{Perm}
use integrated_work.Prelude.{
  ℕ, ◌≤◌, ◌≡◌, refl, List, [], ◌∷◌, keep, All, arith, leb, leb→le, ◌==◌, Bool-cases, inl, inr,
  Option,
}
use integrated_work.Text.{Text}
use integrated_work.Models.{Issue}
use integrated_work.Runtime.{Runtime}
use integrated_work.Report.{score, insert_issue, sorted_issues, build_report}

-- Each issue stands before those of its score and of lower ones.
abbrev pub IsDescending : List Issue → Type 0
IsDescending [] = Unit {0}
IsDescending (i ∷ is) = All (λ j. score j ≤ score i) is × IsDescending is

All-insert_issue :
    (m : ℕ) (i : Issue) (js : List Issue)
    → score i ≤ m
    → All (λ j. score j ≤ m) js
    → All (λ j. score j ≤ m) (insert_issue i js)
unfolding insert_issue
All-insert_issue m i [] h g = (h, tt)
All-insert_issue m i (j ∷ js) h g = elim (Bool-cases (leb (score j) (score i))) [
  | inl e ↦ rw e (h, g)
  | inr e ↦ rw e (g.0, All-insert_issue m i js h g.1)
]

All-le : (m n : ℕ) (js : List Issue) → m ≤ n → All (λ j. score j ≤ m) js → All (λ j. score j ≤ n) js
All-le m n [] h g = tt
All-le m n (j ∷ js) h g = (omega arith, All-le m n js h g.1)

insert_issue-IsDescending :
    (i : Issue) (js : List Issue) → IsDescending js → IsDescending (insert_issue i js)
unfolding insert_issue
insert_issue-IsDescending i [] h = (tt, tt)
insert_issue-IsDescending i (j ∷ js) h = elim (Bool-cases (leb (score j) (score i))) [
  | inl e ↦ rw e ((leb→le _ _ e, All-le (score j) (score i) js (leb→le _ _ e) h.0), h)
  | inr e ↦
      rw e (All-insert_issue (score j) i js (ground arith) h.0, insert_issue-IsDescending i js h.1)
]

pub sorted_issues-IsDescending : (is : List Issue) → IsDescending (sorted_issues is)
unfolding sorted_issues
sorted_issues-IsDescending [] = tt
sorted_issues-IsDescending (i ∷ is) =
    insert_issue-IsDescending i (sorted_issues is) (sorted_issues-IsDescending is)

insert_issue-perm : (i : Issue) (js : List Issue) → Perm (insert_issue i js) (i ∷ js)
unfolding insert_issue
insert_issue-perm i [] = Perm.refl _
insert_issue-perm i (j ∷ js) = elim (Bool-cases (leb (score j) (score i))) [
  | inl e ↦ rw e (Perm.refl _)
  | inr e ↦ rw e (Perm.trans (Perm.cons j (insert_issue-perm i js)) (Perm.swap i j js))
]

pub sorted_issues-perm : (is : List Issue) → Perm (sorted_issues is) is
unfolding sorted_issues
sorted_issues-perm [] = Perm.refl _
sorted_issues-perm (i ∷ is) =
    Perm.trans (insert_issue-perm i (sorted_issues is)) (Perm.cons i (sorted_issues-perm is))

-- The issues of score s.
abbrev pub of_score : ℕ → List Issue → List Issue
of_score s is = keep (λ i. score i == s) is

of_score-insert_issue :
    (s : ℕ) (i : Issue) (js : List Issue) → of_score s (insert_issue i js) ≡ of_score s (i ∷ js)
unfolding insert_issue keep
of_score-insert_issue s i [] = refl
of_score-insert_issue s i (j ∷ js) = ground (arith, of_score-insert_issue s i js)

pub of_score-sorted_issues :
    (s : ℕ) (is : List Issue) → of_score s (sorted_issues is) ≡ of_score s is
unfolding sorted_issues keep
of_score-sorted_issues s [] = refl
of_score-sorted_issues s (i ∷ is) =
    ground (arith, of_score-insert_issue s i (sorted_issues is), of_score-sorted_issues s is)

-- The issues of a report are those given, each as often as it was given; none stands behind one of a
-- lower score; and those of one score are in the order in which they were given.
pub issues-build_report :
    {M : Type 0} (rt : Runtime) (n : ℕ) (is : List Issue) (url name : Text) (endpoints requests : ℕ)
    (start end : Option ℕ) (metadata : Option M)
    → let sorted = (build_report rt n is url name endpoints requests start end metadata).issues in
      Perm sorted is × IsDescending sorted × ((s : ℕ) → of_score s sorted ≡ of_score s is)
unfolding build_report
issues-build_report rt n is url name endpoints requests start end metadata =
    (sorted_issues-perm is, sorted_issues-IsDescending is, λ s. of_score-sorted_issues s is)
