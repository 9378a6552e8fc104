-- ===== src/DiffEngine/Compare/Leaks.antt =====
-- Anomalies that `detect_data_leak` calls leaks.
use integrated_work.Prelude.{ℕ, ◌≤◌, ◌≡◌, true, false, arith, any, leb, le→leb}
use integrated_work.Models.{ScanResponse}
use integrated_work.Runtime.{Runtime}
use integrated_work.DiffEngine.Similarity.{at_least, round4, body_similarity}
use integrated_work.DiffEngine.Similarity.Bounds.{at_least-round4, body_similarity-IsFraction}
use integrated_work.DiffEngine.Compare.{is_denied, compare_responses, detect_data_leak}
use integrated_work.DiffEngine.Compare.Anomaly.{is_anomaly-compare_responses}

module _ (rt : Runtime) (a b : ScanResponse) (threshold : ℕ) (h : 6500 ≤ threshold) where
  high :
      at_least (body_similarity rt a.body b.body) threshold ≡ true
      → leb 6500 (round4 (body_similarity rt a.body b.body)) ≡ true
  high e =
      let (p, q) = body_similarity-IsFraction rt a.body b.body in
      le→leb _ _ (omega (arith, at_least-round4 (body_similarity rt a.body b.body) threshold p e))

  -- With a threshold of at least 0.65, an anomaly is a data leak unless the first user was denied.
  pub detect_data_leak-anomaly :
      (compare_responses rt a b threshold).is_anomaly ≡ true
      → is_denied a ≡ false
      → detect_data_leak (compare_responses rt a b threshold) ≡ true
  unfolding detect_data_leak compare_responses any
  detect_data_leak-anomaly e d =
      ground (arith, (is_anomaly-compare_responses rt a b threshold).0, high)
