-- ===== src/Classifier/Meta.antt =====
-- ISSUE_META of issue_classifier.py.
use integrated_work.Prelude.{◌++◌}
use integrated_work.Text.{Text, txt}
use integrated_work.Models.{
  IssueType, bola, bfla, tenant_leak, jwt_bypass, priv_escalation, info_disclosure,
}

pub record IssueMeta : Type 0 where
  pub cwe : Text
  pub owasp : Text
  pub recommendation : Text

unfoldable pub issue_meta : IssueType → IssueMeta
issue_meta bola = record {
  cwe = txt "CWE-285";
  owasp = txt "OWASP API1:2023 — Broken Object Level Authorization";
  recommendation =
      txt "Validate that the authenticated user owns or has explicit permission to "
      ++ txt "access the requested object. Use indirect object references or enforce "
      ++ txt "ownership checks server-side on every request.";
}
issue_meta bfla = record {
  cwe = txt "CWE-862";
  owasp = txt "OWASP API5:2023 — Broken Function Level Authorization";
  recommendation =
      txt "Implement role-based access control (RBAC) checks at the function/action "
      ++ txt "level. Do not rely solely on UI hiding of admin features. Enforce permissions "
      ++ txt "in the business logic layer on every API call.";
}
issue_meta tenant_leak = record {
  cwe = txt "CWE-284";
  owasp = txt "OWASP API1:2023 — Broken Object Level Authorization (Multi-tenant)";
  recommendation =
      txt "Ensure every database query and response is scoped by tenant_id. Never derive "
      ++ txt "tenant context from user-supplied input alone. Add automated tests that "
      ++ txt "assert cross-tenant queries return 0 results.";
}
issue_meta jwt_bypass = record {
  cwe = txt "CWE-287";
  owasp = txt "OWASP API2:2023 — Broken Authentication";
  recommendation =
      txt "Always verify JWT signature with a strong secret or asymmetric key. Reject "
      ++ txt "tokens with alg=none. Use a well-maintained JWT library and pin the expected "
      ++ txt "algorithm. Rotate secrets regularly.";
}
issue_meta priv_escalation = record {
  cwe = txt "CWE-269";
  owasp = txt "OWASP API5:2023 — Broken Function Level Authorization";
  recommendation =
      txt "Enforce the principle of least privilege. Each role should only be granted "
      ++ txt "the minimum permissions required. Re-validate role on every sensitive action, "
      ++ txt "not just at login.";
}
issue_meta info_disclosure = record {
  cwe = txt "CWE-200";
  owasp = txt "OWASP API3:2023 — Broken Object Property Level Authorization";
  recommendation =
      txt "Apply field-level filtering based on the caller's role before serializing "
      ++ txt "responses. Use allowlist-based serializers rather than returning full model "
      ++ txt "objects.";
}
