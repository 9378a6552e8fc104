-- ===== src/Classifier/Classify/Complete.antt =====
-- The classifier and the diff engine agree: what one flags the other can name.
use integrated_work.Prelude.{
  ℕ, ◌≤◌, ◌≡◌, refl, Bool, true, false, ◌&&◌, ◌||◌, List, [], ◌∷◌, map, arith, nonempty, keep, leb,
  le→leb,
}
use integrated_work.Models.{ScanResponse, DiffResult, Issue, bola, bfla, tenant_leak}
use integrated_work.Runtime.{Runtime}
use integrated_work.DiffEngine.Similarity.{at_least, body_similarity}
use integrated_work.DiffEngine.Similarity.Bounds.{body_similarity-IsFraction, at_least-round4}
use integrated_work.DiffEngine.Compare.{opt_eq, given, compare_responses}
use integrated_work.DiffEngine.Compare.Anomaly.{is_anomaly-compare_responses}
use integrated_work.Classifier.Classify.{checkers, classify_diff}
use integrated_work.Classifier.Classify.Types.{trigger, types-classify_diff}

-- Both responses name a tenant, and it is the same one.
abbrev pub one_tenant : ScanResponse → ScanResponse → Bool
one_tenant a b = given a.tenant_id && given b.tenant_id && opt_eq a.tenant_id b.tenant_id

nonempty-map : {A B : Type 0} (f : A → B) (xs : List A) → nonempty (map f xs) ≡ nonempty xs
nonempty-map f [] = refl
nonempty-map f (x ∷ xs) = refl

module _ (rt : Runtime) (a b : ScanResponse) (threshold : ℕ) (h : 6500 ≤ threshold) where
  abbrev diff : DiffResult
  diff = compare_responses rt a b threshold

  similar :
      at_least (body_similarity rt a.body b.body) threshold ≡ true
      → leb 6500 diff.body_similarity ≡ true
  unfolding compare_responses
  similar e =
      let (p, q) = body_similarity-IsFraction rt a.body b.body in
      le→leb _ _ (omega (arith, at_least-round4 (body_similarity rt a.body b.body) threshold p e))

  triggered :
      diff.is_anomaly ≡ true
      → one_tenant a b ≡ false
      → (trigger tenant_leak diff || trigger bola diff || trigger bfla diff) ≡ true
  unfolding compare_responses
  triggered e o = ground (arith, (is_anomaly-compare_responses rt a b threshold).0, similar)

  some_type :
      diff.is_anomaly ≡ true
      → one_tenant a b ≡ false
      → nonempty (keep (λ t. trigger t diff) checkers) ≡ true
  unfolding keep
  some_type e o = ground (arith, triggered e o)

  -- With a threshold of at least 0.65, every anomaly of two responses that are not of one named
  -- tenant is classified as at least one issue.
  pub nonempty-classify_diff :
      (n : ℕ)
      → (compare_responses rt a b threshold).is_anomaly ≡ true
      → one_tenant a b ≡ false
      → nonempty (classify_diff rt n (compare_responses rt a b threshold)).0 ≡ true
  nonempty-classify_diff n e o =
      let types = types-classify_diff rt n diff in
      let issues = (classify_diff rt n diff).0 in
      ground (arith, types, some_type e o, nonempty-map (λ (i : Issue). i.issue_type) issues)
