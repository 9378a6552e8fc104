-- ===== src/Examples/Diffs.antt =====
-- The diff engine on the sample responses.
use integrated_work.Prelude.{◌≡◌, refl, true, not, ◌&&◌, ◌||◌, [], ◌∷◌, nonempty}
use integrated_work.Text.{txt, text_eq, contains}
use integrated_work.Dict.{has, keys}
use integrated_work.Json.{int, str}
use integrated_work.DiffEngine.Similarity.{body_similarity}
use integrated_work.DiffEngine.Flatten.{flatten, flatten_body}
use integrated_work.DiffEngine.Ids.{extract_ids}
use integrated_work.DiffEngine.Fields.{field_diff}
use integrated_work.DiffEngine.Fields.Split
use integrated_work.DiffEngine.Compare.{
  judge, foreign_ids, compare_responses, different_tenant, same_user,
}
use integrated_work.DiffEngine.Compare.Anomaly
use integrated_work.DiffEngine.Compare.ForeignIds
use integrated_work.Examples.Samples.{sample, profile, other_profile, owner, intruder, refused}

flattened : flatten profile [] ≡ (txt "id", int 42) ∷ (txt "user.email", str (txt "a@b")) ∷ []
unfolding flatten text_eq
flattened = refl

flattened_list : keys (flatten other_profile []) ≡ txt "id" ∷ txt "tags[0]" ∷ []
unfolding flatten keys text_eq
flattened_list = refl

ids_profile : extract_ids sample profile ≡ txt "42" ∷ []
unfolding extract_ids contains
ids_profile = refl

flagged : (compare_responses sample owner intruder 6500).is_anomaly ≡ true
unfolding compare_responses judge body_similarity foreign_ids extract_ids
flagged = refl

is_anomaly-compare_responses_example :
    ((compare_responses sample owner refused 6500).is_anomaly
      ≡ Anomaly.suspicious owner refused
          (body_similarity sample owner.body refused.body)
          (foreign_ids sample owner refused)
          6500)
    × (nonempty (compare_responses sample owner refused 6500).anomaly_reason
        ≡ (compare_responses sample owner refused 6500).is_anomaly)
is_anomaly-compare_responses_example =
    Anomaly.is_anomaly-compare_responses sample owner refused 6500

contains-foreign_ids_example :
    contains (txt "42") (compare_responses sample owner intruder 6500).foreign_ids_found ≡ (
      (contains (txt "42") (extract_ids sample owner.body_json)
        && contains (txt "42") (extract_ids sample intruder.body_json))
      && (different_tenant owner intruder || not (same_user owner intruder)))
contains-foreign_ids_example = ForeignIds.contains-foreign_ids sample owner intruder 6500 (txt "42")

field_diff-split_example :
    (contains (txt "id") (field_diff sample profile other_profile).leaked
      ≡ (has (txt "id") (flatten_body profile) && has (txt "id") (flatten_body other_profile)))
    × (contains (txt "id") (field_diff sample profile other_profile).added ≡ (
        has (txt "id") (flatten_body other_profile) && not (has (txt "id") (flatten_body profile))))
    × (contains (txt "id") (field_diff sample profile other_profile).removed ≡ (
        has (txt "id") (flatten_body profile) && not (has (txt "id") (flatten_body other_profile))))
field_diff-split_example = Split.field_diff-split sample profile other_profile (txt "id")
