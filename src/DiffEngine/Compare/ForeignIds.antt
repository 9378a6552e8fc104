-- ===== src/DiffEngine/Compare/ForeignIds.antt =====
-- Which identifiers `compare_responses` reports as foreign.
use integrated_work.Prelude.{
  ℕ, ◌≡◌, refl, false, not, ◌&&◌, ◌||◌, List, [], ◌∷◌, arith, nonempty, keep,
}
use integrated_work.Text.{Text, contains}
use integrated_work.Text.Laws.{contains-keep}
use integrated_work.Models.{ScanResponse}
use integrated_work.Runtime.{Runtime}
use integrated_work.DiffEngine.Ids.{extract_ids}
use integrated_work.DiffEngine.Compare.{different_tenant, same_user, foreign_ids, compare_responses}

contains-nil : (x : Text) (s : List Text) → nonempty s ≡ false → contains x s ≡ false
unfolding contains
contains-nil x [] h = refl
contains-nil x (y ∷ s) h = ground arith

-- A text is reported as a foreign identifier exactly if both bodies show it and the two responses are
-- of different tenants, both named, or of different users. Whether the access was legitimate is not asked.
pub contains-foreign_ids :
    (rt : Runtime) (a b : ScanResponse) (threshold : ℕ) (x : Text)
    → contains x (compare_responses rt a b threshold).foreign_ids_found ≡ (
        (contains x (extract_ids rt a.body_json) && contains x (extract_ids rt b.body_json))
        && (different_tenant a b || not (same_user a b)))
unfolding compare_responses foreign_ids contains
contains-foreign_ids rt a b threshold x =
    let ids_a = extract_ids rt a.body_json in
    let ids_b = extract_ids rt b.body_json in
    ground (
      arith,
      rt.contains-listing x (keep (λ i. contains i ids_b) ids_a),
      contains-keep x (λ i. contains i ids_b) ids_a,
      contains-nil x ids_a,
      contains-nil x ids_b,
    )
