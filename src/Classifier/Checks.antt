-- ===== src/Classifier/Checks.antt =====
-- The six checks of issue_classifier.py. `n` numbers the fresh identifier and the clock reading that
-- an issue takes.
use integrated_work.Prelude.{
  ℕ, Bool, not, ◌&&◌, Option, none, some, List, [], ◌∷◌, ◌++◌, keep, take, length, nonempty, leb,
  ltb, if◌then◌else◌,
}
use integrated_work.Text.{Text, txt, text_eq, lower, show_nat, join}
use integrated_work.Models.{
  ScanResponse, DiffResult, Issue, bola, bfla, tenant_leak, jwt_bypass, priv_escalation,
  info_disclosure, critical, high, medium,
}
use integrated_work.Runtime.{Runtime}
use integrated_work.DiffEngine.Similarity.{percent}
use integrated_work.DiffEngine.Compare.{opt_eq, given, show_opt, same_user, is_denied, is_ok}
use integrated_work.Classifier.Severity.{has_hint, score_bola, score_bfla}
use integrated_work.Classifier.Repro.{issue_of}

-- f"{diff.body_similarity:.0%}"
similarity_text : DiffResult → Text
unfolding percent
similarity_text diff = percent (record { num = diff.body_similarity; den = 10000 })

module _ (rt : Runtime) (n : ℕ) (diff : DiffResult) where
  unfoldable pub check_bola : Option Issue
  unfolding is_ok same_user score_bola similarity_text
  check_bola =
      let a = diff.response_a in
      let b = diff.response_b in
      if is_ok a && is_ok b && leb 6500 diff.body_similarity && not (same_user a b)
      then some (
          issue_of rt n diff bola (score_bola diff) (txt "BOLA")
            (txt "User '"
              ++ show_opt b.user_id
              ++ txt "' (role: "
              ++ show_opt b.role
              ++ txt ") received data belonging to User '"
              ++ show_opt a.user_id
              ++ txt "' with "
              ++ similarity_text diff
              ++ txt " body similarity. "
              ++ show_nat (length diff.leaked_fields)
              ++ txt " fields were present in both responses.")
            (txt "Send request as User B using User B's token to User A's resource URL."))
      else none

  unfoldable pub check_bfla : Option Issue
  unfolding is_ok is_denied score_bfla
  check_bfla =
      let a = diff.response_a in
      let b = diff.response_b in
      if is_denied a && is_ok b
      then some (
          issue_of rt n diff bfla (score_bfla diff) (txt "BFLA")
            (txt "User '"
              ++ show_opt a.user_id
              ++ txt "' (role: "
              ++ show_opt a.role
              ++ txt ") received HTTP "
              ++ show_nat a.status_code
              ++ txt " but User '"
              ++ show_opt b.user_id
              ++ txt "' (role: "
              ++ show_opt b.role
              ++ txt ") received HTTP 200 on the same endpoint. "
              ++ txt "Function-level authorization appears missing.")
            (txt "Send request as lower-privilege User B. Observe 200 where 403 expected."))
      else none

  unfoldable pub check_tenant_leak : Option Issue
  unfolding opt_eq given
  check_tenant_leak =
      let a = diff.response_a in
      let b = diff.response_b in
      if not (nonempty diff.foreign_ids_found)
      then none
      else if given a.tenant_id && given b.tenant_id && opt_eq a.tenant_id b.tenant_id
      then none
      else some (
          issue_of rt n diff tenant_leak critical (txt "Tenant Data Leak")
            (txt "IDs belonging to Tenant '"
              ++ show_opt a.tenant_id
              ++ txt "' (User '"
              ++ show_opt a.user_id
              ++ txt "') were found in the response of Tenant '"
              ++ show_opt b.tenant_id
              ++ txt "' (User '"
              ++ show_opt b.user_id
              ++ txt "'). Leaked IDs: "
              ++ join (txt ", ") (take 5 diff.foreign_ids_found)
              ++ txt ".")
            (txt "Authenticate as Tenant B, call the endpoint, "
              ++ txt "observe Tenant A's object IDs in response."))

-- token = b.token or ""
unfoldable pub token_text : Option Text → Text
token_text none = []
token_text (some s) = s

abbrev pub tamper_markers : List Text
tamper_markers =
    txt "alg=none" ∷ txt "eyJhbGciOiJub25lIiwidHlwIjoiSldUIn0" ∷ txt "__tampered__" ∷ []

unfoldable pub is_tampered : ScanResponse → Bool
unfolding has_hint token_text
is_tampered b = has_hint tamper_markers (token_text b.token)

-- role_hierarchy.get((role or "").lower(), 1)
unfoldable pub role_rank : Option Text → ℕ
unfolding lower text_eq token_text
role_rank role =
    let r = lower (token_text role) in
    if text_eq r (txt "admin")
    then 3
    else if text_eq r (txt "manager")
    then 2
    else if text_eq r (txt "guest")
    then 0
    else 1

abbrev pub sensitive_hints : List Text
sensitive_hints =
    txt "token"
    ∷ txt "secret"
    ∷ txt "key"
    ∷ txt "hash"
    ∷ txt "internal"
    ∷ txt "debug"
    ∷ txt "password"
    ∷ txt "private"
    ∷ []

unfoldable pub is_sensitive : Text → Bool
unfolding has_hint lower
is_sensitive f = has_hint sensitive_hints (lower f)

module _ (rt : Runtime) (n : ℕ) (diff : DiffResult) where
  unfoldable pub check_jwt_bypass : Option Issue
  unfolding is_ok is_tampered
  check_jwt_bypass =
      let b = diff.response_b in
      if is_ok b && is_tampered b
      then some (
          issue_of rt n diff jwt_bypass critical (txt "JWT Bypass")
            (txt "A tampered JWT token was accepted by "
              ++ diff.endpoint
              ++ txt ". The server returned HTTP "
              ++ show_nat b.status_code
              ++ txt " instead of 401/403. "
              ++ txt "This may indicate the signature is not being verified.")
            (txt "Send request with tampered JWT (alg=none or modified payload). "
              ++ txt "Observe 200 response."))
      else none

  unfoldable pub check_privilege_escalation : Option Issue
  unfolding is_ok role_rank similarity_text
  check_privilege_escalation =
      let a = diff.response_a in
      let b = diff.response_b in
      if is_ok a
        && is_ok b
        && ltb (role_rank b.role) (role_rank a.role)
        && leb 5000 diff.body_similarity
      then some (
          issue_of rt n diff priv_escalation high (txt "Privilege Escalation")
            (txt "User '"
              ++ show_opt b.user_id
              ++ txt "' with role '"
              ++ show_opt b.role
              ++ txt "' accessed a resource that should require role '"
              ++ show_opt a.role
              ++ txt "'. Response body similarity: "
              ++ similarity_text diff
              ++ txt ".")
            (txt "Authenticate as lower-privilege user and call the higher-privilege endpoint."))
      else none

  unfoldable pub check_info_disclosure : Option Issue
  unfolding is_sensitive keep
  check_info_disclosure =
      let sensitive_fields = keep is_sensitive diff.added_fields in
      if nonempty sensitive_fields
      then some (
          issue_of rt n diff info_disclosure medium (txt "Info Disclosure")
            (txt "User '"
              ++ show_opt diff.response_b.user_id
              ++ txt "' received sensitive fields not present in the reference response: "
              ++ join (txt ", ") sensitive_fields
              ++ txt ".")
            (txt "Send request as User B and inspect response body for extra sensitive fields."))
      else none
