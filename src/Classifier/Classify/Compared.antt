-- ===== src/Classifier/Classify/Compared.antt =====
-- The issues that `classify_diff` finds in what `compare_responses` makes of two responses.
use integrated_work.Prelude.{
  ℕ, ◌≡◌, refl, Bool, Option, none, some, false, not, ◌&&◌, ◌||◌, List, [], ◌∷◌, ◌++◌, map, any,
  arith, nonempty, leb, ltb, ◌==◌, if◌then◌else◌, keep,
}
use integrated_work.Text.{Text, txt, has_part}
use integrated_work.Models.{
  ScanResponse, IssueType, bola, bfla, tenant_leak, jwt_bypass, priv_escalation, info_disclosure,
}
use integrated_work.Runtime.{Runtime}
use integrated_work.DiffEngine.Similarity.{body_similarity, round4}
use integrated_work.DiffEngine.Fields.{field_diff}
use integrated_work.DiffEngine.Compare.{
  opt_eq, given, same_user, is_ok, is_denied, foreign_ids, compare_responses,
}
use integrated_work.DiffEngine.Compare.Anomaly.{suspicious, is_anomaly-compare_responses}
use integrated_work.Classifier.Severity.{has_hint}
use integrated_work.Classifier.Checks.{
  is_tampered, tamper_markers, token_text, role_rank, is_sensitive,
}
use integrated_work.Classifier.Classify.{checkers, classify_diff}
use integrated_work.Classifier.Classify.Types.{trigger, types-classify_diff}

-- The token shows a mark of tampering.
abbrev pub shows_mark : Option Text → Bool
shows_mark none = false
shows_mark (some token) =
    has_part token (txt "alg=none")
    || has_part token (txt "eyJhbGciOiJub25lIiwidHlwIjoiSldUIn0")
    || has_part token (txt "__tampered__")

hint : (token : Option Text) → has_hint tamper_markers (token_text token) ≡ shows_mark token
unfolding has_hint any token_text
hint none = refl
hint (some token) = ground arith

marked : (b : ScanResponse) → is_tampered b ≡ shows_mark b.token
unfolding is_tampered
marked b = hint b.token

abbrev pub when : Bool → IssueType → List IssueType
when c t = if c then t ∷ [] else []

module _ (rt : Runtime) (a b : ScanResponse) where
  -- What a response 200 of B shows of the rights of A and B, by the status of A.
  abbrev pub rights : List IssueType
  rights =
      if a.status_code == 200
      then when (leb 6500 (round4 (body_similarity rt a.body b.body))) bola
        ++ when
            (ltb (role_rank b.role) (role_rank a.role)
              && leb 5000 (round4 (body_similarity rt a.body b.body)))
            priv_escalation
      else when (a.status_code == 401 || a.status_code == 403) bfla

  abbrev pub found_types : List IssueType
  found_types =
      when (b.status_code == 200 && shows_mark b.token) jwt_bypass
      ++ when
          (nonempty (foreign_ids rt a b)
            && (not (given a.tenant_id)
                || not (given b.tenant_id)
                || not (opt_eq a.tenant_id b.tenant_id)))
          tenant_leak
      ++ (if b.status_code == 200 then rights else [])
      ++ when (any is_sensitive (field_diff rt a.body_json b.body_json).added) info_disclosure

  module _ (threshold : ℕ) where
    kept :
        same_user a b ≡ false
        → keep (λ t. trigger t (compare_responses rt a b threshold)) checkers ≡ found_types
    unfolding compare_responses keep is_ok is_denied
    kept u = ground (arith, marked b)

    -- What `classify_diff` finds in the comparison of two responses. If the pair is no anomaly, nothing.
    -- Otherwise, in this order: a JWT bypass if B is answered 200 and its token shows a mark of
    -- tampering; a tenant leak if there are foreign identifiers and the two do not both name one tenant;
    -- if both are answered 200, a BOLA from a rounded similarity of 0.65 on, and a privilege escalation
    -- from one of 0.5 on if B's role ranks below A's; a BFLA if A is denied with 401 or 403 and B is
    -- answered 200; and an information disclosure if a field of B's body alone has a sensitive name.
    pub types-compared :
        (n : ℕ)
        → map (λ i. i.issue_type) (classify_diff rt n (compare_responses rt a b threshold)).0 ≡ (
            if suspicious a b (body_similarity rt a.body b.body) (foreign_ids rt a b) threshold
            then found_types
            else [])
    types-compared n = ground (
      arith,
      types-classify_diff rt n (compare_responses rt a b threshold),
      (is_anomaly-compare_responses rt a b threshold).0,
      kept,
    )
