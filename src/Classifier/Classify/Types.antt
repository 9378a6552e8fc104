-- ===== src/Classifier/Classify/Types.antt =====
-- Which issues `classify_diff` finds, and what every issue carries.
use integrated_work.Prelude.{
  nonempty-keep, ℕ, ◌≡◌, refl, Bool, not, ◌&&◌, Option, none, some, List, [], ◌∷◌, map, keep, any,
  arith, nonempty, leb, ltb, if◌then◌else◌,
}
use integrated_work.Models.{
  DiffResult, Issue, IssueType, bola, bfla, tenant_leak, jwt_bypass, priv_escalation,
  info_disclosure,
}
use integrated_work.Runtime.{Runtime}
use integrated_work.DiffEngine.Compare.{opt_eq, given, same_user, is_denied, is_ok}
use integrated_work.Classifier.Repro.{issue_of}
use integrated_work.Classifier.Checks.{
  check_bola, check_bfla, check_tenant_leak, check_jwt_bypass, check_privilege_escalation,
  check_info_disclosure, is_tampered, role_rank, is_sensitive,
}
use integrated_work.Classifier.Classify.{checkers, drawn, run_checker, run_checkers, classify_diff}

-- The condition of each type of issue, read off a comparison.
abbrev pub trigger : IssueType → DiffResult → Bool
trigger jwt_bypass d = is_ok d.response_b && is_tampered d.response_b
trigger tenant_leak d =
    nonempty d.foreign_ids_found
    && not (
        given d.response_a.tenant_id
        && given d.response_b.tenant_id
        && opt_eq d.response_a.tenant_id d.response_b.tenant_id)
trigger bola d =
    is_ok d.response_a
    && is_ok d.response_b
    && not (same_user d.response_a d.response_b)
    && leb 6500 d.body_similarity
trigger bfla d = is_denied d.response_a && is_ok d.response_b
trigger priv_escalation d =
    is_ok d.response_a
    && is_ok d.response_b
    && ltb (role_rank d.response_b.role) (role_rank d.response_a.role)
    && leb 5000 d.body_similarity
trigger info_disclosure d = any is_sensitive d.added_fields

abbrev type_of : Option Issue → Option IssueType
type_of none = none
type_of (some i) = some i.issue_type

module _ (rt : Runtime) where
  type-run_checker :
      (t : IssueType) (n : ℕ) (d : DiffResult)
      → type_of (run_checker rt t n d) ≡ (if trigger t d then some t else none)
  unfolding run_checker issue_of check_bola check_bfla check_tenant_leak check_jwt_bypass
      check_privilege_escalation check_info_disclosure
  type-run_checker jwt_bypass n d = ground arith
  type-run_checker tenant_leak n d = ground arith
  type-run_checker bola n d = ground arith
  type-run_checker bfla n d = ground arith
  type-run_checker priv_escalation n d = ground arith
  type-run_checker info_disclosure n d = ground (arith, nonempty-keep is_sensitive d.added_fields)

  types-run_checkers :
      (ts : List IssueType) (n : ℕ) (d : DiffResult)
      → map (λ i. i.issue_type) (run_checkers rt ts n d).0 ≡ keep (λ t. trigger t d) ts
  unfolding run_checkers keep
  types-run_checkers [] n d = refl
  types-run_checkers (t ∷ ts) n d =
      ground
        (arith, type-run_checker t n d, types-run_checkers ts (drawn n (run_checker rt t n d)) d)

  -- The issues of an anomaly are one for each type whose condition the comparison meets, in the order
  -- of the checkers; a comparison that is no anomaly has none.
  pub types-classify_diff :
      (n : ℕ) (d : DiffResult)
      → map (λ i. i.issue_type) (classify_diff rt n d).0
        ≡ (if d.is_anomaly then keep (λ t. trigger t d) checkers else [])
  unfolding classify_diff
  types-classify_diff n d = ground (arith, types-run_checkers checkers n d)
