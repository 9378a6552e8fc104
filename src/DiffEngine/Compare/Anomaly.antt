-- ===== src/DiffEngine/Compare/Anomaly.antt =====
-- When `compare_responses` flags a pair, stated without the order of its tests.
use integrated_work.Prelude.{
  ℕ, ◌≤◌, ◌≡◌, refl, ap, Bool, true, false, not, ◌&&◌, ◌||◌, Option, none, some, List, arith,
  nonempty,
}
use integrated_work.Text.{Text}
use integrated_work.Text.Laws.{text_eq_iff, text_eq_refl}
use integrated_work.Models.{ScanResponse}
use integrated_work.Runtime.{Runtime}
use integrated_work.DiffEngine.Similarity.{Ratio, at_least, body_similarity}
use integrated_work.DiffEngine.Similarity.Bounds.{same_body-at_least}
use integrated_work.DiffEngine.Compare.{
  opt_eq, same_user, is_denied, is_ok, judge, foreign_ids, compare_responses, similar_reason,
  foreign_reason, denied_reason,
}

pub opt_eq_refl : (o : Option Text) → opt_eq o o ≡ true
unfolding opt_eq
opt_eq_refl none = refl
opt_eq_refl (some s) = text_eq_refl s

pub opt_eq→eq : (o p : Option Text) → opt_eq o p ≡ true → o ≡ p
unfolding opt_eq
opt_eq→eq none none h = refl
opt_eq→eq none (some t) h = cc
opt_eq→eq (some s) none h = cc
opt_eq→eq (some s) (some t) h = ap some ((text_eq_iff s t).0 h)

-- The flag as one condition.
abbrev pub suspicious : ScanResponse → ScanResponse → Ratio → List Text → ℕ → Bool
suspicious a b sim foreign threshold =
    not (same_user a b)
    && ((is_ok a && is_ok b && at_least sim threshold)
        || (nonempty foreign && (is_ok a || is_ok b))
        || (is_denied a && is_ok b))

judge-flag :
    (a b : ScanResponse) (sim : Ratio) (foreign : List Text) (t : ℕ)
    → (judge a b sim foreign t).0 ≡ suspicious a b sim foreign t
unfolding judge same_user is_denied is_ok at_least
judge-flag a b sim foreign t = ground arith

judge-reason :
    (a b : ScanResponse) (sim : Ratio) (foreign : List Text) (t : ℕ)
    → nonempty (judge a b sim foreign t).1 ≡ (judge a b sim foreign t).0
unfolding judge similar_reason foreign_reason denied_reason
judge-reason a b sim foreign t = ground arith

module _ (rt : Runtime) (a b : ScanResponse) (threshold : ℕ) where
  -- A pair is an anomaly exactly if the users differ and one of these holds: both answers are 200
  -- and the bodies are as similar as the threshold asks; B's body shows identifiers of A and one of
  -- the answers is 200; A is denied with 401 or 403 and B is answered 200. The reason is a text that
  -- is not empty exactly in these cases.
  pub is_anomaly-compare_responses :
      ((compare_responses rt a b threshold).is_anomaly
        ≡ suspicious a b (body_similarity rt a.body b.body) (foreign_ids rt a b) threshold)
      × (nonempty (compare_responses rt a b threshold).anomaly_reason
          ≡ (compare_responses rt a b threshold).is_anomaly)
  unfolding compare_responses
  is_anomaly-compare_responses = (
    judge-flag a b (body_similarity rt a.body b.body) (foreign_ids rt a b) threshold,
    judge-reason a b (body_similarity rt a.body b.body) (foreign_ids rt a b) threshold,
  )

  -- Two users who both get 200 and the same body are an anomaly, at every threshold up to 1.
  pub same_body-is_anomaly :
      (s : Text)
      → a.body ≡ some s
      → b.body ≡ some s
      → same_user a b ≡ false
      → is_ok a ≡ true
      → is_ok b ≡ true
      → threshold ≤ 10000
      → (compare_responses rt a b threshold).is_anomaly ≡ true
  same_body-is_anomaly s ea eb u oa ob h =
      let sim : at_least (body_similarity rt a.body b.body) threshold ≡ true =
        cc (same_body-at_least rt s threshold h) in
      ground (arith, is_anomaly-compare_responses.0)

  -- Two responses of one user are never an anomaly, whatever their bodies and statuses.
  pub same_user-not-anomaly :
      a.user_id ≡ b.user_id → (compare_responses rt a b threshold).is_anomaly ≡ false
  unfolding compare_responses judge same_user is_denied is_ok
  same_user-not-anomaly e = ground (arith, opt_eq_refl b.user_id)
