-- ===== src/DiffEngine/Compare.antt =====
-- `compare_responses`, `detect_data_leak` and `batch_compare` of diff_engine.py. The threshold is in
-- ten-thousandths.
pub mod Anomaly
pub mod ForeignIds
pub mod Batch
pub mod Leaks
use integrated_work.Prelude.{
  ℕ, Bool, true, false, not, ◌&&◌, ◌||◌, Option, none, some, List, [], ◌∷◌, ◌++◌, keep, any, take,
  length, nonempty, leb, ◌==◌, if◌then◌else◌,
}
use integrated_work.Text.{Text, txt, text_eq, show_nat, join, contains}
use integrated_work.Models.{ScanResponse, DiffResult, sub_ℕ}
use integrated_work.Runtime.{Runtime}
use integrated_work.DiffEngine.Similarity.{Ratio, at_least, round4, percent, body_similarity}
use integrated_work.DiffEngine.Ids.{extract_ids}
use integrated_work.DiffEngine.Fields.{FieldDiff, field_diff}

-- x == y of optional texts
unfoldable pub opt_eq : Option Text → Option Text → Bool
unfolding text_eq
opt_eq none none = true
opt_eq none (some t) = false
opt_eq (some s) none = false
opt_eq (some s) (some t) = text_eq s t

-- bool(x) of an optional text
unfoldable pub given : Option Text → Bool
given none = false
given (some []) = false
given (some (c ∷ s)) = true

-- f"{x}" of an optional text
unfoldable pub show_opt : Option Text → Text
show_opt none = txt "None"
show_opt (some s) = s

unfoldable pub different_tenant : ScanResponse → ScanResponse → Bool
unfolding opt_eq given
different_tenant a b =
    given a.tenant_id && given b.tenant_id && not (opt_eq a.tenant_id b.tenant_id)

unfoldable pub same_user : ScanResponse → ScanResponse → Bool
unfolding opt_eq
same_user a b = opt_eq a.user_id b.user_id

-- response.status_code in (403, 401)
unfoldable pub is_denied : ScanResponse → Bool
is_denied r = r.status_code == 403 || r.status_code == 401

unfoldable pub is_ok : ScanResponse → Bool
is_ok r = r.status_code == 200

similar_reason : ScanResponse → ScanResponse → Ratio → Text
unfolding percent show_opt
similar_reason a b sim =
    txt "Both users received HTTP 200 with body similarity "
    ++ percent sim
    ++ txt ". User A ("
    ++ show_opt a.user_id
    ++ txt "/"
    ++ show_opt a.role
    ++ txt ") and User B ("
    ++ show_opt b.user_id
    ++ txt "/"
    ++ show_opt b.role
    ++ txt ") appear to receive the same data."

foreign_reason : ScanResponse → List Text → Text
unfolding show_opt join
foreign_reason a ids =
    txt "IDs belonging to User A ("
    ++ show_opt a.user_id
    ++ txt ") found in User B's response body: "
    ++ join (txt ", ") (take 5 ids)

denied_reason : ScanResponse → ScanResponse → Text
unfolding show_nat show_opt
denied_reason a b =
    txt "User A received "
    ++ show_nat a.status_code
    ++ txt " but User B ("
    ++ show_opt b.role
    ++ txt ") received 200 on the same endpoint."

-- The chain of `if` and `elif`: the flag and its reason.
unfoldable pub judge : ScanResponse → ScanResponse → Ratio → List Text → ℕ → Bool × Text
unfolding same_user is_denied is_ok at_least similar_reason foreign_reason denied_reason
judge a b sim foreign threshold =
    if not (same_user a b) && is_ok a && is_ok b && at_least sim threshold
    then (true, similar_reason a b sim)
    else if nonempty foreign && not (same_user a b) && (is_ok a || is_ok b)
    then (true, foreign_reason a foreign)
    else if not (same_user a b) && is_denied a && is_ok b
    then (true, denied_reason a b)
    else (false, [])

module _ (rt : Runtime) where
  -- The identifiers of A that B's body shows too.
  unfoldable pub foreign_ids : ScanResponse → ScanResponse → List Text
  unfolding different_tenant same_user
  foreign_ids a b =
      let ids_a = extract_ids rt a.body_json in
      let ids_b = extract_ids rt b.body_json in
      if nonempty ids_a && nonempty ids_b && (different_tenant a b || not (same_user a b))
      then rt.listing (keep (λ i. contains i ids_b) ids_a)
      else []

  unfoldable pub compare_responses : ScanResponse → ScanResponse → ℕ → DiffResult
  unfolding round4
  compare_responses a b threshold =
      let sim = body_similarity rt a.body b.body in
      let fields = field_diff rt a.body_json b.body_json in
      let foreign = foreign_ids a b in
      let (flag, reason) = judge a b sim foreign threshold in
      record {
        endpoint = a.endpoint;
        method = a.method;
        response_a = a;
        response_b = b;
        status_delta = sub_ℕ b.status_code a.status_code;
        body_similarity = round4 sim;
        leaked_fields = fields.leaked;
        added_fields = fields.added;
        removed_fields = fields.removed;
        value_changes = fields.value_changes;
        is_anomaly = flag;
        anomaly_reason = reason;
        foreign_ids_found = foreign;
      }

  unfoldable pub batch_compare : List (ScanResponse × ScanResponse) → ℕ → List DiffResult
  batch_compare [] threshold = []
  batch_compare ((a, b) ∷ pairs) threshold =
      let diff = compare_responses a b threshold in
      let results = batch_compare pairs threshold in
      if diff.is_anomaly then diff ∷ results else results

unfoldable pub detect_data_leak : DiffResult → Bool
unfolding any
detect_data_leak diff =
    let high_similarity = leb 6500 diff.body_similarity in
    let many_shared_fields = leb 3 (length diff.leaked_fields) in
    let foreign_ids_present = nonempty diff.foreign_ids_found in
    any (λ x. x) (high_similarity ∷ many_shared_fields ∷ foreign_ids_present ∷ [])
